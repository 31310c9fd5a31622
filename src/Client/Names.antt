-- ===== src/Client/Names.antt =====
-- The lists of names in the commands of src/client.rs.
use titanirc.Base.{
  ℕ, ◌≡◌, refl, ap, ◌∙◌, false, not, List, [], ◌∷◌, ◌++◌, arith, is_empty, keep, contains, split,
  join, All, Text, text,
}
use titanirc.Client.Handlers.{parse_channel_name_list}

split-none : (c : ℕ) (s : Text) → contains c s ≡ false → split c s ≡ s ∷ []
split-none c [] h = refl
split-none c (d ∷ s) h = ground (arith, split-none c s)

split-append : (c : ℕ) (a b : Text) → contains c a ≡ false → split c (a ++ (c ∷ b)) ≡ a ∷ split c b
split-append c [] b h = ground arith
split-append c (d ∷ a) b h = ground (arith, split-append c a b)

-- A name that a list can hold.
pub record IsName (s : Text) : Type 0 where
  pub filled : is_empty s ≡ false
  pub no_comma : contains b',' s ≡ false

names-split :
    (n : Text) (names : List Text)
    → IsName n
    → All (λ m. IsName m) names
    → split b',' (join (text ",") (n ∷ names)) ≡ n ∷ names
names-split n [] valid rest = split-none b',' n valid.no_comma
names-split n (m ∷ names) valid rest =
    split-append b',' n (join (text ",") (m ∷ names)) valid.no_comma
    ∙ ap (λ (ns : List Text). n ∷ ns) (names-split m names rest.0 rest.1)

names-keep :
    (names : List Text)
    → All (λ m. IsName m) names
    → keep (λ (v : Text). not (is_empty v)) names ≡ names
names-keep [] valid = refl
names-keep (n ∷ names) valid =
    rw valid.0.filled (ap (λ (ns : List Text). n ∷ ns) (names-keep names valid.1))

-- A list of names that are not empty and have no comma is read back from its names joined by
-- commas.
parse_channel_name_list-join :
    (names : List Text)
    → All (λ m. IsName m) names
    → parse_channel_name_list (join (text ",") names) ≡ names
unfolding parse_channel_name_list
parse_channel_name_list-join [] valid = refl
parse_channel_name_list-join (n ∷ names) valid =
    rw (names-split n names valid.0 valid.1) (names-keep (n ∷ names) valid)
