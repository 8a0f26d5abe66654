-- ===== src/Workspaces/Resolve.antt =====
-- `ResolveWorkspaceForClient` (internal/manager/workspace.go): a client never gets into a pool that it
-- is not a member of.
use mathlib.Core.List.{Mem, mem-cons_self, mem-cons_of_mem}
use cube.Prelude.{
  ◌≡◌, ◌⊎◌, inl, inr, true, List, [], ◌∷◌, arith, Bool-cases, Str, str_eq, str_eq_iff, trim_space,
  is_empty, contains,
}
use cube.Types.{State, Membership}
use cube.Result.{ok}
use cube.World.{World}
use cube.World.Steps.{loaded, after_load}
use cube.Workspaces.{member_of, only_workspace, resolve_requested, resolve_workspace_for_client}

-- Some membership names the client and the workspace.
abbrev pub Belongs : Str → Str → List Membership → Type 0
Belongs client ws l =
    (ms : Membership) × (Mem ms l) × (ms.client_id ≡ client) × (ms.workspace_id ≡ ws)

member_of-Belongs :
    (client ws : Str) (l : List Membership)
    → contains (member_of client l) ws ≡ true
    → Belongs client ws l
unfolding member_of contains
member_of-Belongs client ws [] h = cc
member_of-Belongs client ws (ms ∷ l) h =
    let later : contains (member_of client l) ws ≡ true → Belongs client ws (ms ∷ l) =
      λ r. let (m, p, q, s) = member_of-Belongs client ws l r in (m, mem-cons_of_mem ms p, q, s) in
    elim (Bool-cases (str_eq ms.client_id client)) [
      | inl e ↦ elim (Bool-cases (str_eq ms.workspace_id ws)) [
        | inl e' ↦ (
          ms,
          mem-cons_self,
          (str_eq_iff ms.client_id client).0 e,
          (str_eq_iff ms.workspace_id ws).0 e',
        )
        | inr e' ↦ later (ground arith)
      ]
      | inr e ↦ later (rw e at h)
    ]

only_workspace-ok :
    (ids : List Str) {ws : Str} → only_workspace ids ≡ ok ws → contains ids ws ≡ true
unfolding only_workspace contains
only_workspace-ok [] h = cc
only_workspace-ok (id ∷ []) {ws} h = ground (arith, str_eq_iff id ws)
only_workspace-ok (id ∷ id' ∷ ids) h = cc

resolve_requested-ok :
    (state : State) (requested : Str) (ids : List Str) {ws : Str}
    → resolve_requested state requested ids ≡ ok ws
    → (ws ≡ requested) × (contains ids ws ≡ true)
unfolding resolve_requested
resolve_requested-ok state requested ids {ws} h = elim (Bool-cases (contains ids requested)) [
  | inl e ↦ let same : ws ≡ requested = ground arith in (same, rw same e)
  | inr e ↦ absurd (ground arith)
]

-- When `ResolveWorkspaceForClient` succeeds, the loaded state has a membership of that client in the
-- workspace it gives; and if a workspace was asked for, this is the one given.
pub resolve_workspace_for_client-Belongs :
    (client requested : Str) (w : World) {ws : Str} {w' : World}
    → resolve_workspace_for_client client requested w ≡ (ok ws, w')
    → Belongs client ws (loaded w).memberships
      × ((is_empty (trim_space requested) ≡ true) ⊎ (ws ≡ trim_space requested))
unfolding resolve_workspace_for_client
resolve_workspace_for_client-Belongs client requested w {ws} {w'} h =
    let r = trim_space requested in
    let state = loaded w in
    let ids = member_of client state.memberships in
    let h₁ = after_load w _ h in
    elim (Bool-cases (is_empty r)) [
      | inl e ↦
          let found : only_workspace ids ≡ ok ws = ground arith in
          (member_of-Belongs client ws state.memberships (only_workspace-ok ids found), inl e)
      | inr e ↦
          let found : resolve_requested state r ids ≡ ok ws = ground arith in
          let (same, known) = resolve_requested-ok state r ids found in
          (member_of-Belongs client ws state.memberships known, inr same)
    ]
