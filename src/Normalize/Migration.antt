-- ===== src/Normalize/Migration.antt =====
-- What `migrateDefaultWorkspace` and `migrateUsersAndDevices` establish.
use cube.Prelude.{
  ◌≡◌, refl, Bool, true, false, List, [], ◌∷◌, ◌++◌, arith, All, if-elim, exists_by, Str,
  str_eq_refl,
}
use cube.Types.{Time, State, Client, Membership, Workspace}
use cube.Normalize.{
  default_workspace_id, has_workspace, default_workspace, is_enrolled, enroll_clients,
  legacy_flat_pool, account_in_default, migrate_default_workspace,
}

module _ {ℓ} {A : Type ℓ} where
  exists_by-append_left :
      (p : A → Bool) (xs ys : List A) → exists_by p xs ≡ true → exists_by p (xs ++ ys) ≡ true
  unfolding exists_by
  exists_by-append_left p [] ys h = cc
  exists_by-append_left p (x ∷ xs) ys h = ground (arith, exists_by-append_left p xs ys)

  exists_by-append_last :
      (p : A → Bool) (xs : List A) (y : A) → p y ≡ true → exists_by p (xs ++ y ∷ []) ≡ true
  unfolding exists_by
  exists_by-append_last p [] y h = ground arith
  exists_by-append_last p (x ∷ xs) y h = ground (arith, exists_by-append_last p xs y h)

is_enrolled-append :
    (ms : List Membership) (m : Membership) (id : Str)
    → is_enrolled ms id ≡ true
    → is_enrolled (ms ++ m ∷ []) id ≡ true
unfolding is_enrolled
is_enrolled-append ms m id h = exists_by-append_left _ ms _ h

is_enrolled-append_last :
    (ms : List Membership) (m : Membership)
    → m.workspace_id ≡ default_workspace_id
    → is_enrolled (ms ++ m ∷ []) m.client_id ≡ true
unfolding is_enrolled
is_enrolled-append_last ms m e =
    exists_by-append_last _ ms m
      (rw e (ground (arith, str_eq_refl default_workspace_id, str_eq_refl m.client_id)))

-- Enrolment takes nobody out.
enroll_clients-keeps :
    (now : Time) (clients : List Client) (ms : List Membership) (id : Str)
    → is_enrolled ms id ≡ true
    → is_enrolled (enroll_clients now clients ms) id ≡ true
unfolding enroll_clients
enroll_clients-keeps now [] ms id h = h
enroll_clients-keeps now (c ∷ clients) ms id h =
    if-elim (λ ms'. is_enrolled (enroll_clients now clients ms') id ≡ true) (is_enrolled ms c.id)
      (λ e. enroll_clients-keeps now clients ms id h)
      (λ e. enroll_clients-keeps now clients _ id (is_enrolled-append ms _ id h))

enroll_clients-enrolls :
    (now : Time) (clients : List Client) (ms : List Membership)
    → All (λ c. is_enrolled (enroll_clients now clients ms) c.id ≡ true) clients
unfolding enroll_clients
enroll_clients-enrolls now [] ms = tt
enroll_clients-enrolls now (c ∷ clients) ms =
    if-elim
      (λ ms'.
        (is_enrolled (enroll_clients now clients ms') c.id ≡ true)
        × All (λ d. is_enrolled (enroll_clients now clients ms') d.id ≡ true) clients)
      (is_enrolled ms c.id)
      (λ e. (enroll_clients-keeps now clients ms c.id e, enroll_clients-enrolls now clients ms))
      (λ e. (
        enroll_clients-keeps now clients _ c.id (is_enrolled-append_last ms _ refl),
        enroll_clients-enrolls now clients _,
      ))

has_default_row :
    (now : Time) (ws : List Workspace)
    → has_workspace (ws ++ default_workspace now ∷ []) default_workspace_id ≡ true
unfolding has_workspace default_workspace
has_default_row now ws = exists_by-append_last _ ws _ (str_eq_refl default_workspace_id)

abbrev pub MigratesPool : Time → State → State → Type 0
MigratesPool now state st =
    (account_in_default st.accounts ≡ true
      → has_workspace st.workspaces default_workspace_id ≡ true)
    × (legacy_flat_pool state ≡ true
        → (st.workspace_migrated ≡ true)
          × All (λ c. is_enrolled st.memberships c.id ≡ true) st.clients)
    × (legacy_flat_pool state ≡ false
        → (st.memberships ≡ state.memberships) × (st.workspace_migrated ≡ state.workspace_migrated))

-- The migration gives the default workspace a row wherever an account is homed in it, enrols every
-- client of a legacy pool and marks it migrated, and changes no membership of any other state.
pub migrate_default_workspace_lem :
    (now : Time) (state : State) → MigratesPool now state (migrate_default_workspace now state)
unfolding migrate_default_workspace
migrate_default_workspace_lem now state =
    let enrolled = enroll_clients-enrolls now state.clients state.memberships in
    (
      ground (arith, has_default_row now state.workspaces),
      λ h. rw h (refl, enrolled),
      λ h. ground arith,
    )
