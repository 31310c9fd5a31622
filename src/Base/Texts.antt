-- ===== src/Base/Texts.antt =====
-- Strings as lists of Unicode scalar values, with the operations of `str` that the source calls.
use Prim.Native.Nat.{ℕ, zero, suc, ◌+◌, ◌/◌, ◌%◌}
use Prim.Native.Char.{code}
use Prim.Native.String.{String}
use mathlib.Core.Path.{◌≡◌, refl}
use mathlib.Core.Logic.{◌↔◌}
use mathlib.Core.Bool.{Bool, true, false, ◌&&◌, ◌||◌}
use mathlib.Core.Option.{Option, none, some}
use mathlib.Core.List.{List, [], ◌∷◌, ◌++◌}
use native.Mathlib.Omega.{arith}
use titanirc.Base.Tests.{ltb, leb, if◌then◌else◌, PartialEq, ◌==◌, nat_eq, nat_beq_iff}

abbrev pub Text : Type 0
Text = List ℕ

-- The scalar values of a literal.
abbrev pub text : String → Text
text String.[] = []
text (String.◌∷◌ c s) = code c ∷ text s

abbrev pub text_beq : Text → Text → Bool
text_beq [] [] = true
text_beq [] (d ∷ t) = false
text_beq (c ∷ s) [] = false
text_beq (c ∷ s) (d ∷ t) = (c == d) && text_beq s t

pub text_beq_iff : (s t : Text) → (text_beq s t ≡ true) ↔ (s ≡ t)
text_beq_iff [] [] = (λ _. refl, λ _. refl)
text_beq_iff [] (d ∷ t) = (λ h. cc, λ h. cc)
text_beq_iff (c ∷ s) [] = (λ h. cc, λ h. cc)
text_beq_iff (c ∷ s) (d ∷ t) = ground (arith, nat_beq_iff c d, text_beq_iff s t)

instance abbrev pub text_eq : PartialEq Text
text_eq = record { beq = text_beq; agrees = text_beq_iff }

-- `str::contains` of one character.
abbrev pub contains : ℕ → Text → Bool
contains c [] = false
contains c (d ∷ s) = if d == c then true else contains c s

-- `str::ends_with` of one character.
abbrev pub ends_with : ℕ → Text → Bool
ends_with c [] = false
ends_with c (d ∷ []) = d == c
ends_with c (d ∷ e ∷ s) = ends_with c (e ∷ s)

-- `str::starts_with` of one character.
abbrev pub starts_with : ℕ → Text → Bool
starts_with c [] = false
starts_with c (d ∷ s) = d == c

-- `s.chars().filter(|&d| d == c).count()`
abbrev pub count : ℕ → Text → ℕ
count c [] = 0
count c (d ∷ s) = if d == c then suc (count c s) else count c s

-- `str::split_once` at the first `c`.
abbrev pub split_once : ℕ → Text → Option (Text × Text)
split_once c [] = none
split_once c (d ∷ s) =
    if d == c
    then some ([], s)
    else elim (split_once c s) [ none ↦ none | some (a, b) ↦ some (d ∷ a, b) ]

-- `str::split`: what stands between the separators, the empty pieces included.
abbrev pub push_first : ℕ → List Text → List Text
push_first d [] = (d ∷ []) ∷ []
push_first d (p ∷ ps) = (d ∷ p) ∷ ps

abbrev pub split : ℕ → Text → List Text
split c [] = [] ∷ []
split c (d ∷ s) = if d == c then [] ∷ split c s else push_first d (split c s)

-- `Itertools::join`
abbrev pub join : Text → List Text → Text
join sep [] = []
join sep (t ∷ []) = t
join sep (t ∷ u ∷ ts) = t ++ (sep ++ join sep (u ∷ ts))

-- `char::is_whitespace`, and `str::trim`.
abbrev pub is_whitespace : ℕ → Bool
is_whitespace c =
    (leb 9 c && leb c 13)
    || (c == 32)
    || (c == 133)
    || (c == 160)
    || (c == 5760)
    || (leb 8192 c && leb c 8202)
    || (c == 8232)
    || (c == 8233)
    || (c == 8239)
    || (c == 8287)
    || (c == 12288)

abbrev pub trim_start : Text → Text
trim_start [] = []
trim_start (c ∷ s) = if is_whitespace c then trim_start s else c ∷ s

abbrev pub trim_end_push : ℕ → Text → Text
trim_end_push c [] = if is_whitespace c then [] else c ∷ []
trim_end_push c (d ∷ s) = c ∷ d ∷ s

abbrev pub trim_end : Text → Text
trim_end [] = []
trim_end (c ∷ s) = trim_end_push c (trim_end s)

abbrev pub trim : Text → Text
trim s = trim_end (trim_start s)

-- The decimal digits of a number, `ToString` of an unsigned integer. A number has at most as many
-- digits as one more than itself.
abbrev pub digits : ℕ → ℕ → Text → Text
digits zero n rest = rest
digits (suc fuel) n rest = elim (ltb n 10) [
  | true ↦ (48 + n) ∷ rest
  | false ↦ digits fuel (n / 10) ((48 + n % 10) ∷ rest)
]

abbrev pub show_nat : ℕ → Text
show_nat n = digits (suc n) n []
