-- ===== src/Prelude/Text.antt =====
-- Texts as lists of code points, with the parts of Go's `strings` package that the code uses.
-- Go compares bytes of UTF-8; on valid text that is the order of the code points.
use Prim.Native.Nat.{ℕ, ◌+◌}
use Prim.Native.Char.{code}
use Prim.Native.String.{String}
use mathlib.Core.Path.{◌≡◌, refl}
use mathlib.Core.Logic.{◌↔◌}
use mathlib.Core.Bool.{Bool, true, false, ◌&&◌, ◌||◌}
use mathlib.Core.List.{List, [], ◌∷◌, reverse}
use native.Mathlib.Omega.{arith}
use package.cube.Prelude.Tests.{ltb, leb, ◌==◌, if◌then◌else◌}

abbrev pub Str : Type 0
Str = List ℕ

abbrev pub text : String → Str
text String.[] = []
text (String.◌∷◌ c s) = code c ∷ text s

unfoldable pub str_eq : Str → Str → Bool
str_eq [] [] = true
str_eq [] (b ∷ t) = false
str_eq (a ∷ s) [] = false
str_eq (a ∷ s) (b ∷ t) = a == b && str_eq s t

-- `a < b` on texts.
unfoldable pub str_lt : Str → Str → Bool
str_lt s [] = false
str_lt [] (b ∷ t) = true
str_lt (a ∷ s) (b ∷ t) = if ltb a b then true else if ltb b a then false else str_lt s t

-- `s == ""`
unfoldable pub is_empty : Str → Bool
is_empty [] = true
is_empty (c ∷ s) = false

-- `unicode.IsSpace`
unfoldable pub is_space : ℕ → Bool
is_space c =
    (leb 9 c && leb c 13)
    || c == 32
    || c == 0x85
    || c == 0xa0
    || c == 0x1680
    || (leb 0x2000 c && leb c 0x200a)
    || c == 0x2028
    || c == 0x2029
    || c == 0x202f
    || c == 0x205f
    || c == 0x3000

unfoldable pub drop_while : (ℕ → Bool) → Str → Str
drop_while p [] = []
drop_while p (c ∷ s) = if p c then drop_while p s else c ∷ s

unfoldable pub trim_right : (ℕ → Bool) → Str → Str
unfolding drop_while
trim_right p s = reverse (drop_while p (reverse s))

-- `strings.TrimFunc`
unfoldable pub trim_by : (ℕ → Bool) → Str → Str
unfolding drop_while trim_right
trim_by p s = trim_right p (drop_while p s)

-- `strings.TrimSpace`
unfoldable pub trim_space : Str → Str
unfolding trim_by is_space
trim_space s = trim_by is_space s

-- `strings.TrimSpace(s) == ""`
unfoldable pub is_blank : Str → Bool
unfolding trim_space is_empty
is_blank s = is_empty (trim_space s)

pub str_eq_iff : (s t : Str) → (str_eq s t ≡ true) ↔ (s ≡ t)
unfolding str_eq
str_eq_iff [] [] = ground arith
str_eq_iff [] (b ∷ t) = ground arith
str_eq_iff (a ∷ s) [] = ground arith
str_eq_iff (a ∷ s) (b ∷ t) = ground (arith, str_eq_iff s t)

pub str_eq_refl : (s : Str) → str_eq s s ≡ true
str_eq_refl s = (str_eq_iff s s).1 refl

-- Is the text among those listed?
unfoldable pub contains : List Str → Str → Bool
contains [] s = false
contains (t ∷ ts) s = if str_eq t s then true else contains ts s

-- `strings.ToLower` on ASCII.
unfoldable pub to_lower : Str → Str
to_lower [] = []
to_lower (c ∷ s) = (if leb b'A' c && leb c b'Z' then c + 32 else c) ∷ to_lower s

-- `strings.EqualFold` on ASCII.
unfoldable pub equal_fold : Str → Str → Bool
unfolding str_eq to_lower
equal_fold s t = str_eq (to_lower s) (to_lower t)

-- `strings.HasPrefix`
unfoldable pub has_prefix : Str → Str → Bool
has_prefix s [] = true
has_prefix [] (p ∷ ps) = false
has_prefix (c ∷ s) (p ∷ ps) = c == p && has_prefix s ps
