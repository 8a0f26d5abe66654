-- ===== src/Identity.antt =====
-- internal/manager/identity.go: account ids and unique ids. A set of used ids, a map[string]bool in
-- the source, is the list of its keys. What time.Now formats to is an argument, `stamp`.
pub mod Sanitize
pub mod Unique
use cube.Prelude.{
  ℕ, zero, suc, ◌+◌, ◌-◌, Bool, true, false, not, ◌&&◌, ◌||◌, Option, none, some, List, [], ◌∷◌,
  ◌++◌, ltb, leb, ◌==◌, if◌then◌else◌, length, take, Str, text, trim_space, trim_by, contains,
  is_empty,
}
use cube.Prelude.Decimal.{decimal}

unfoldable pub is_alphanumeric : ℕ → Bool
is_alphanumeric c =
    (leb b'a' c && leb c b'z') || (leb b'A' c && leb c b'Z') || (leb b'0' c && leb c b'9')

unfoldable pub is_joiner : ℕ → Bool
is_joiner c = c == b'-' || c == b'_'

-- `accountIDPattern`: ^[a-zA-Z0-9][a-zA-Z0-9_-]{0,63}$
unfoldable pub all_id_chars : Str → Bool
unfolding is_alphanumeric is_joiner
all_id_chars [] = true
all_id_chars (c ∷ s) = (is_alphanumeric c || is_joiner c) && all_id_chars s

unfoldable pub matches_account_id : Str → Bool
unfolding all_id_chars
matches_account_id [] = false
matches_account_id (c ∷ s) = is_alphanumeric c && all_id_chars s && leb (length s) 63

-- What one character adds to the builder.
unfoldable pub sanitize_char : ℕ → Str
unfolding is_alphanumeric is_joiner
sanitize_char c =
    if is_alphanumeric c
    then c ∷ []
    else if is_joiner c
    then c ∷ []
    else if c == b'.' || c == b'@' || c == b' '
    then b'-' ∷ []
    else []

-- The loop over the characters, with `n` bytes in the builder so far.
unfoldable pub sanitize_loop : ℕ → Str → Str
unfolding sanitize_char
sanitize_loop n [] = []
sanitize_loop n (c ∷ s) =
    let out = sanitize_char c in
    let rest = sanitize_loop (n + length out) s in
    out ++ (if leb 64 (n + length out) then [] else rest)

with_profile_prefix : Str → Str
with_profile_prefix [] = []
with_profile_prefix (c ∷ s) = if not (is_alphanumeric c) then text "profile-" ++ c ∷ s else c ∷ s

unfoldable pub sanitize_account_id : Str → Str
unfolding sanitize_loop with_profile_prefix is_joiner trim_by trim_space is_empty
sanitize_account_id value =
    let trimmed = trim_space value in
    if is_empty trimmed
    then []
    else with_profile_prefix (trim_by is_joiner (sanitize_loop 0 trimmed))

-- base-i, cut so that it has 64 bytes at most.
unfoldable pub candidate : Str → ℕ → Str
unfolding decimal
candidate base i =
    let suffix = b'-' ∷ decimal i in
    (if ltb 64 (length base + length suffix) then take (64 - length suffix) base else base)
    ++ suffix

-- The loop from `i`, with the number of rounds left.
unfoldable pub first_unused : ℕ → ℕ → Str → List Str → Option Str
first_unused zero i base used = none
first_unused (suc rounds) i base used =
    let rest = first_unused rounds (suc i) base used in
    if not (contains used (candidate base i)) then some (candidate base i) else rest

unfoldable pub or_profile : Str → Str
or_profile base = if is_empty base then text "profile" else base

unfoldable pub or_stamp : Str → Option Str → Str
or_stamp stamp none = text "profile-" ++ stamp
or_stamp stamp (some id) = id

-- `for i := 2; i < 1000` makes 998 rounds.
unfoldable pub unique_from_used : Str → Str → List Str → Str
unique_from_used stamp base used =
    let base = or_profile (sanitize_account_id base) in
    if not (contains used base) then base else or_stamp stamp (first_unused 998 2 base used)
