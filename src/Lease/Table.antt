-- ===== src/Lease/Table.antt =====
-- What the lease operations of internal/manager/lease.go promise: a table with a slot for each account,
-- which a lease fills, and three steps that a caller may take. Times, sweeps and labels are left out.
use cube.Prelude.{ℕ, ◌≡◌, ◌⊎◌, some, List, [], map, get_elem?, set, if◌then◌else◌, Str, trim_space}
use cube.Types.{Time, Account}
use cube.Lease.{account_lease_active}

-- A lease has its id and the client it was given to.
pub data Slot : Type 0 where
  free : Slot
  held : Str → Str → Slot

abbrev pub slot : Time → Account → Slot
slot now a = if account_lease_active a now then held a.lease_id a.lease_client_id else free

-- The table that the accounts show at a time.
unfoldable pub table : Time → List Account → List Slot
table now accounts = map (slot now) accounts

-- The caller who names the lease and the client may use the slot.
abbrev pub MayUse : Str → Str → Str → Str → Type 0
MayUse lease_id client_id lease client =
    (lease ≡ trim_space lease_id)
    × ((trim_space client_id ≡ []) ⊎ (client ≡ []) ⊎ (client ≡ trim_space client_id))

pub data Operation : Type 0 where
  claim : Str → Operation
  extend : Str → Str → Operation
  release : Str → Str → Operation

-- A claim fills a free slot for its client, an extension leaves the table as it is, and a release frees
-- the slot; the last two are for a caller who may use it.
pub data Step : Operation → List Slot → List Slot → Type 0 where
  claimed :
      (client lease : Str) (i : ℕ) (ss : List Slot)
      → get_elem? ss i ≡ some free
      → Step (claim client) ss (set ss i (held lease (trim_space client)))
  extended :
      (lid cid lease client : Str) (i : ℕ) (ss : List Slot)
      → get_elem? ss i ≡ some (held lease client)
      → MayUse lid cid lease client
      → Step (extend lid cid) ss ss
  freed :
      (lid cid lease client : Str) (i : ℕ) (ss : List Slot)
      → get_elem? ss i ≡ some (held lease client)
      → MayUse lid cid lease client
      → Step (release lid cid) ss (set ss i free)
