-- ===== src/Common/Text.antt =====
-- JavaScript strings: lists of UTF-16 code units, with the string operations that the source uses.
-- `toUpperCase` and `toLowerCase` are tables of Unicode; they are parameters where they are used.
pub mod Index
use Prim.Native.Nat.{ℕ, suc}
use Prim.Native.Char.{code}
use Prim.Native.String.{String}
use mathlib.Core.Path.{◌≡◌, refl}
use mathlib.Core.Logic.{◌↔◌}
use mathlib.Core.Bool.{Bool, true, false, ◌&&◌, ◌||◌}
use mathlib.Core.List.{List, [], ◌∷◌, reverse}
use native.Mathlib.Omega.{arith}
use mathlib.Core.Option.{Option, none, some}
use pos_cloud.Common.Tests.{leb, ◌==◌, if◌then◌else◌}
use pos_cloud.Common.Lists.{length, all}

abbrev pub Text : Type 0
Text = List ℕ

-- A literal of the source.
abbrev pub text : String → Text
text String.[] = []
text (String.◌∷◌ c s) = code c ∷ text s

infix 50 ◌===◌
unfoldable pub ◌===◌ : Text → Text → Bool
[] === [] = true
[] === (b ∷ t) = false
(a ∷ s) === [] = false
(a ∷ s) === (b ∷ t) = a == b && s === t

pub ===_sound : (s t : Text) → (s === t) ≡ true → s ≡ t
unfolding ◌===◌
===_sound [] [] h = refl
===_sound [] (b ∷ t) h = cc
===_sound (a ∷ s) [] h = cc
===_sound (a ∷ s) (b ∷ t) h = ground (arith, ===_sound s t)

pub ===_refl : (s : Text) → (s === s) ≡ true
unfolding ◌===◌
===_refl [] = refl
===_refl (a ∷ s) = ground (arith, ===_refl s)

pub ===_complete : (s t : Text) → s ≡ t → (s === t) ≡ true
===_complete s t h = rw h (===_refl t)

-- `===` decides equality.
pub ===_iff : (s t : Text) → ((s === t) ≡ true) ↔ (s ≡ t)
===_iff s t = (===_sound s t, ===_complete s t)

-- The code units of `\s`, which are also those that `trim` strips: WhiteSpace and LineTerminator.
abbrev pub is_space : ℕ → Bool
is_space c =
    leb 9 c && leb c 13
    || c == 32
    || c == 0xa0
    || c == 0x1680
    || leb 0x2000 c && leb c 0x200a
    || c == 0x2028
    || c == 0x2029
    || c == 0x202f
    || c == 0x205f
    || c == 0x3000
    || c == 0xfeff

unfoldable pub trim_start : Text → Text
trim_start [] = []
trim_start (c ∷ s) = if is_space c then trim_start s else c ∷ s

-- `s.trim()`
unfoldable pub trim : Text → Text
unfolding trim_start
trim s = reverse (trim_start (reverse (trim_start s)))

-- `s.indexOf(c)` for one code unit; `none` is -1.
unfoldable pub index_of : ℕ → Text → Option ℕ
index_of c [] = none
index_of c (d ∷ s) =
    if d == c then some 0 else elim (index_of c s) [ none ↦ none | some i ↦ some (suc i) ]

abbrev pub starts_with : Text → Text → Bool
starts_with [] s = true
starts_with (c ∷ needle) [] = false
starts_with (c ∷ needle) (d ∷ s) = c == d && starts_with needle s

-- `s.includes(needle)`
unfoldable pub includes : Text → Text → Bool
includes needle [] = starts_with needle []
includes needle (d ∷ s) = starts_with needle (d ∷ s) || includes needle s

abbrev pub is_upper_or_digit : ℕ → Bool
is_upper_or_digit c = leb b'A' c && leb c b'Z' || leb b'0' c && leb c b'9'

-- `[A-Z0-9_-]`
abbrev pub is_code_unit : ℕ → Bool
is_code_unit c = is_upper_or_digit c || c == b'_' || c == b'-'

-- `/^[A-Z0-9][A-Z0-9_-]{low,high}$/.test(s)`
unfoldable pub matches_code : ℕ → ℕ → Text → Bool
matches_code low high [] = false
matches_code low high (c ∷ s) =
    is_upper_or_digit c && all is_code_unit s && leb low (length s) && leb (length s) high
