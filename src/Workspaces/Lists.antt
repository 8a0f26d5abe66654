-- ===== src/Workspaces/Lists.antt =====
-- The lists of internal/manager/workspace.go.
use cube.Prelude.{none, some, List, [], ◌∷◌, if◌then◌else◌, Str, str_eq, str_lt, select}
use cube.Prelude.Sort.{sort_by}
use cube.Prelude.Dict.{Dict, lookup, insert}
use cube.Types.{Workspace, WorkspaceRole, Membership}
use cube.Workspaces.{membership_matches}
use cube.World.{M, pure, ◌>>=◌, load}

unfoldable pub list_workspaces : M (List Workspace)
list_workspaces = do
  state ← load
  pure (sort_by (λ (a b : Workspace). str_lt a.id b.id) state.workspaces)

-- The last membership of the client in a workspace decides.
unfoldable pub roles_by_workspace : Str → Dict WorkspaceRole → List Membership → Dict WorkspaceRole
unfolding membership_matches
roles_by_workspace client_id roles [] = roles
roles_by_workspace client_id roles (ms ∷ memberships) =
    roles_by_workspace client_id
      (if membership_matches ms client_id then insert ms.workspace_id ms.role roles else roles)
      memberships

unfoldable pub with_roles : Dict WorkspaceRole → List Workspace → List (Workspace × WorkspaceRole)
unfolding lookup
with_roles roles [] = []
with_roles roles (ws ∷ workspaces) =
    let rest = with_roles roles workspaces in
    elim (lookup ws.id roles) [ none ↦ rest | some role ↦ (ws, role) ∷ rest ]

unfoldable pub list_workspaces_for_client : Str → M (List (Workspace × WorkspaceRole))
list_workspaces_for_client client_id = do
  state ← load
  pure (
      sort_by (λ (a b : Workspace × WorkspaceRole). str_lt (a.0).id (b.0).id)
        (with_roles (roles_by_workspace client_id [] state.memberships) state.workspaces))

unfoldable pub list_memberships : Str → M (List Membership)
list_memberships workspace_id = do
  state ← load
  pure (
      sort_by (λ (a b : Membership). str_lt a.client_id b.client_id)
        (select (λ (ms : Membership). str_eq ms.workspace_id workspace_id) state.memberships))
