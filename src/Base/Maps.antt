-- ===== src/Base/Maps.antt =====
-- `std::collections::HashMap`, as an association list. The order of the list stands for the
-- unspecified order of iteration: nothing below depends on it but the order of results.
use Prim.Native.Nat.{◌+◌, ◌≤◌}
use mathlib.Core.Path.{◌≡◌, refl}
use mathlib.Core.Logic.{◌≢◌, ◌↔◌}
use mathlib.Core.Bool.{Bool, true, not, ◌&&◌}
use mathlib.Core.Option.{Option, none, some}
use mathlib.Core.List.{List, [], ◌∷◌}
use native.Mathlib.Omega.{arith}
use titanirc.Base.Tests.{if◌then◌else◌, PartialEq, ◌==◌, is_some, beq_refl, beq_ne}
use titanirc.Base.Lists.{length, Has}

abbrev pub HashMap {ℓ κ} : Type ℓ → Type κ → Type (ℓ ⊔ κ)
HashMap K V = List (K × V)

module _ {ℓ κ} {K : Type ℓ} {V : Type κ} ⦃e : PartialEq K⦄ where
  abbrev pub lookup : K → HashMap K V → Option V
  lookup k [] = none
  lookup k ((j, v) ∷ m) = if j == k then some v else lookup k m

  abbrev pub contains_key : K → HashMap K V → Bool
  contains_key k m = is_some (lookup k m)

  -- The entry is replaced where it stands, or added.
  abbrev pub insert : K → V → HashMap K V → HashMap K V
  insert k v [] = (k, v) ∷ []
  insert k v ((j, w) ∷ m) = if j == k then (k, v) ∷ m else (j, w) ∷ insert k v m

  abbrev pub remove : K → HashMap K V → HashMap K V
  remove k [] = []
  remove k ((j, w) ∷ m) = if j == k then remove k m else (j, w) ∷ remove k m

module _ {ℓ κ} {K : Type ℓ} {V : Type κ} where
  abbrev pub keys : HashMap K V → List K
  keys [] = []
  keys ((k, v) ∷ m) = k ∷ keys m

  abbrev pub values : HashMap K V → List V
  values [] = []
  values ((k, v) ∷ m) = v ∷ values m

module _ {ℓ κ} {K : Type ℓ} {V : Type κ} ⦃e : PartialEq K⦄ where
  pub lookup-insert :
      (k j : K) (v : V) (m : HashMap K V)
      → lookup j (insert k v m) ≡ (if k == j then some v else lookup j m)
  lookup-insert k j v [] = refl
  lookup-insert k j v ((i, w) ∷ m) =
      ground (arith, e.agrees k j, e.agrees i k, e.agrees i j, lookup-insert k j v m)

  pub lookup-remove :
      (k j : K) (m : HashMap K V) → lookup j (remove k m) ≡ (if k == j then none else lookup j m)
  lookup-remove k j [] = ground arith
  lookup-remove k j ((i, w) ∷ m) =
      ground (arith, e.agrees k j, e.agrees i k, e.agrees i j, lookup-remove k j m)

  pub lookup-insert_self : (k : K) (v : V) (m : HashMap K V) → lookup k (insert k v m) ≡ some v
  lookup-insert_self k v m = rw (lookup-insert k k v m, beq_refl k)

  pub lookup-remove_self : (k : K) (m : HashMap K V) → lookup k (remove k m) ≡ none
  lookup-remove_self k m = rw (lookup-remove k k m, beq_refl k)

  pub lookup-insert_ne :
      (k j : K) (v : V) (m : HashMap K V) → k ≢ j → lookup j (insert k v m) ≡ lookup j m
  lookup-insert_ne k j v m n = rw (lookup-insert k j v m, beq_ne k j n)

  pub lookup-remove_ne : (k j : K) (m : HashMap K V) → k ≢ j → lookup j (remove k m) ≡ lookup j m
  lookup-remove_ne k j m n = rw (lookup-remove k j m, beq_ne k j n)

-- No key is listed twice.
abbrev pub IsUnique : {K V : Type 0} ⦃e : PartialEq K⦄ → HashMap K V → Type 0
IsUnique [] = Unit
IsUnique ((k, v) ∷ m) = (lookup k m ≡ none) × IsUnique m

module _ {K V : Type 0} ⦃e : PartialEq K⦄ where
  pub insert-IsUnique : (k : K) (v : V) (m : HashMap K V) → IsUnique m → IsUnique (insert k v m)
  insert-IsUnique k v [] u = (refl, tt)
  insert-IsUnique k v ((j, w) ∷ m) u =
      ground (arith, e.agrees j k, e.agrees k j, insert-IsUnique k v m u.1, lookup-insert k j v m)

  pub remove-IsUnique : (k : K) (m : HashMap K V) → IsUnique m → IsUnique (remove k m)
  remove-IsUnique k [] u = tt
  remove-IsUnique k ((j, w) ∷ m) u =
      ground (arith, e.agrees k j, remove-IsUnique k m u.1, lookup-remove k j m)

  -- An insertion adds one entry at most, and never loses one.
  pub length-insert :
      (k : K) (v : V) (m : HashMap K V)
      → length (insert k v m) ≡ (if contains_key k m then length m else length m + 1)
  length-insert k v [] = refl
  length-insert k v ((j, w) ∷ m) = ground (arith, length-insert k v m)

module _ {K V : Type 0} ⦃e : PartialEq K⦄ where
  pub Has-keys : (k : K) (m : HashMap K V) → Has k (keys m) ↔ (contains_key k m ≡ true)
  Has-keys k [] = ((λ h. elim h [ ]), (λ h. cc))
  Has-keys k ((j, v) ∷ m) = ground (arith, e.agrees j k, Has-keys k m)

  pub contains-insert :
      (k j : K) (v : V) (m : HashMap K V)
      → contains_key j m ≡ true
      → contains_key j (insert k v m) ≡ true
  contains-insert k j v m h = rw (lookup-insert k j v m) (ground arith)

  pub contains-remove :
      (k j : K) (m : HashMap K V) → contains_key j (remove k m) ≡ (not (k == j) && contains_key j m)
  contains-remove k j m = rw (lookup-remove k j m) (ground arith)

  pub length-remove : (k : K) (m : HashMap K V) → length (remove k m) ≤ length m
  length-remove k [] = omega arith
  length-remove k ((j, w) ∷ m) = ground (arith, length-remove k m)
