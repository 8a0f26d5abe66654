-- ===== src/Web.antt =====
-- internal/web: what the web server decides by itself.
pub mod Limiter
pub mod Access
pub mod Window
