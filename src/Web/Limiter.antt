-- ===== src/Web/Limiter.antt =====
-- internal/web/auth_handlers.go: the limiter of the login attempts, by the caller's address.
use cube.Prelude.{
  ℕ, ◌+◌, ltb, Bool, true, false, Option, none, some, List, [], ◌∷◌, ◌++◌, if◌then◌else◌, Str,
  length, select,
}
use cube.Prelude.Dict.{Dict, lookup, insert}
use cube.Types.{Time, minute}

abbrev pub max_hits : ℕ
max_hits = 8

-- The attempts that were allowed, by key.
abbrev pub LoginLimiter : Type 0
LoginLimiter = Dict (List Time)

-- `t.After(now.Add(-window))`
abbrev pub recent : Time → Time → Bool
recent now t = ltb now (t + minute)

abbrev pub hits_of : Option (List Time) → List Time
hits_of none = []
hits_of (some hits) = hits

-- What an attempt makes of the hits of its key, and whether it is allowed.
unfoldable pub allow_hits : List Time → Time → List Time × Bool
allow_hits hits now =
    let kept = select (recent now) hits in
    if ltb (length kept) max_hits then (kept ++ (now ∷ []), true) else (kept, false)

unfoldable pub allow : LoginLimiter → Str → Time → LoginLimiter × Bool
unfolding allow_hits
allow l key now = let r = allow_hits (hits_of (lookup key l)) now in (insert key r.0 l, r.1)
