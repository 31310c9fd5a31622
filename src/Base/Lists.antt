-- ===== src/Base/Lists.antt =====
-- Lists measured by native numbers, membership by recursion, and the iterator adapters that the
-- source uses.
use Prim.Native.Nat.{ℕ, suc, ◌+◌, ◌≤◌, ◌<◌}
use mathlib.Core.Path.{◌≡◌, refl, ap}
use mathlib.Core.Logic.{◌⊎◌, ◌↔◌, inl, inr}
use mathlib.Core.Bool.{Bool, true, false}
use mathlib.Core.Option.{Option, none, some}
use mathlib.Core.List.{List, [], ◌∷◌, ◌++◌, map}
use native.Mathlib.Omega.{arith}
use titanirc.Base.Tests.{if◌then◌else◌, Bool-cases}

module _ {ℓ} {A : Type ℓ} where
  abbrev pub length : List A → ℕ
  length [] = 0
  length (x ∷ xs) = suc (length xs)

  abbrev pub is_empty : List A → Bool
  is_empty [] = true
  is_empty (x ∷ xs) = false

  -- `Iterator::filter`
  abbrev pub keep : (A → Bool) → List A → List A
  keep p [] = []
  keep p (x ∷ xs) = if p x then x ∷ keep p xs else keep p xs

  -- `Iterator::find`
  abbrev pub find : (A → Bool) → List A → Option A
  find p [] = none
  find p (x ∷ xs) = if p x then some x else find p xs

  abbrev pub all : (A → Bool) → List A → Bool
  all p [] = true
  all p (x ∷ xs) = if p x then all p xs else false

  -- `Iterator::next` on a fresh iterator.
  abbrev pub first : List A → Option A
  first [] = none
  first (x ∷ xs) = some x

-- `a` stands in the list. It computes to alternatives, which the tactics read.
abbrev pub Has : {A : Type 0} → A → List A → Type 0
Has a [] = ⊥
Has a (x ∷ xs) = (a ≡ x) ⊎ Has a xs

-- `P` holds of each item.
abbrev pub All : {A : Type 0} → (A → Type 0) → List A → Type 0
All P [] = Unit
All P (x ∷ xs) = P x × All P xs

pub Has-append_left : {A : Type 0} (a : A) (xs ys : List A) → Has a xs → Has a (xs ++ ys)
Has-append_left a [] ys h = elim h [ ]
Has-append_left a (x ∷ xs) ys (inl e) = inl e
Has-append_left a (x ∷ xs) ys (inr h) = inr (Has-append_left a xs ys h)

pub Has-append_right : {A : Type 0} (a : A) (xs ys : List A) → Has a ys → Has a (xs ++ ys)
Has-append_right a [] ys h = h
Has-append_right a (x ∷ xs) ys h = inr (Has-append_right a xs ys h)

pub Has-append : {A : Type 0} (a : A) (xs ys : List A) → Has a (xs ++ ys) → Has a xs ⊎ Has a ys
Has-append a [] ys h = inr h
Has-append a (x ∷ xs) ys (inl e) = inl (inl e)
Has-append a (x ∷ xs) ys (inr h) = elim (Has-append a xs ys h) [
  | inl k ↦ inl (inr k)
  | inr k ↦ inr k
]

pub Has-map : {A B : Type 0} (f : A → B) (a : A) (xs : List A) → Has a xs → Has (f a) (map f xs)
Has-map f a [] h = elim h [ ]
Has-map f a (x ∷ xs) (inl e) = inl (ap f e)
Has-map f a (x ∷ xs) (inr h) = inr (Has-map f a xs h)

pub Has-map_inv :
    {A B : Type 0} (f : A → B) (b : B) (xs : List A)
    → Has b (map f xs)
    → (a : A) × Has a xs × (b ≡ f a)
Has-map_inv f b [] h = elim h [ ]
Has-map_inv f b (x ∷ xs) (inl e) = (x, inl refl, e)
Has-map_inv f b (x ∷ xs) (inr h) = let (a, m, e) = Has-map_inv f b xs h in (a, inr m, e)

pub length-append {ℓ} : {A : Type ℓ} (xs ys : List A) → length (xs ++ ys) ≡ length xs + length ys
length-append [] ys = omega arith
length-append (x ∷ xs) ys = omega (arith, length-append xs ys)

pub length-map {ℓ κ} :
    {A : Type ℓ} {B : Type κ} (f : A → B) (xs : List A) → length (map f xs) ≡ length xs
length-map f [] = refl
length-map f (x ∷ xs) = ap suc (length-map f xs)

pub Has-keep :
    {A : Type 0} (p : A → Bool) (a : A) (xs : List A)
    → Has a (keep p xs) ↔ (Has a xs × (p a ≡ true))
Has-keep p a [] = ((λ h. elim h [ ]), (λ h. elim h.0 [ ]))
Has-keep p a (x ∷ xs) = elim (Bool-cases (p x)) [
  | inl yes_ ↦ rw yes_ (
    λ h. elim h [
      | inl e ↦ (inl e, rw e yes_)
      | inr h' ↦ let (k, q) = (Has-keep p a xs).0 h' in (inr k, q)
    ],
    λ (h, q). elim h [ inl e ↦ inl e | inr k ↦ inr ((Has-keep p a xs).1 (k, q)) ],
  )
  | inr no_ ↦ rw no_ (
    λ h. let (k, q) = (Has-keep p a xs).0 h in (inr k, q),
    λ (h, q). elim h [ inl e ↦ absurd (cc (no_, q, ap p e)) | inr k ↦ (Has-keep p a xs).1 (k, q) ],
  )
]

pub All-append :
    {A : Type 0} (P : A → Type 0) (xs ys : List A) → All P xs → All P ys → All P (xs ++ ys)
All-append P [] ys h k = k
All-append P (x ∷ xs) ys h k = (h.0, All-append P xs ys h.1 k)

-- What holds of the images of all items.
pub All-map :
    {A B : Type 0} (P : B → Type 0) (f : A → B) (xs : List A)
    → ((x : A) → P (f x))
    → All P (map f xs)
All-map P f [] h = tt
All-map P f (x ∷ xs) h = (h x, All-map P f xs h)

pub All-mapped :
    {A B : Type 0} (P : A → Type 0) (Q : B → Type 0) (f : A → B) (xs : List A)
    → ((x : A) → P x → Q (f x))
    → All P xs
    → All Q (map f xs)
All-mapped P Q f [] h k = tt
All-mapped P Q f (x ∷ xs) h k = (h x k.0, All-mapped P Q f xs h k.1)

pub All-keep :
    {A : Type 0} (P : A → Type 0) (f : A → Bool) (xs : List A) → All P xs → All P (keep f xs)
All-keep P f [] h = tt
All-keep P f (x ∷ xs) h = elim (Bool-cases (f x)) [
  | inl e ↦ rw e (h.0, All-keep P f xs h.1)
  | inr e ↦ rw e (All-keep P f xs h.1)
]

-- `P` holds of what is there.
abbrev pub Ensures : {A : Type 0} → (A → Type 0) → Option A → Type 0
Ensures P none = Unit
Ensures P (some a) = P a

-- Each item's number is above those before it.
abbrev pub AreIncreasing : {A : Type 0} → (A → ℕ) → List A → Type 0
AreIncreasing t [] = Unit
AreIncreasing t (x ∷ xs) = All (λ y. t x < t y) xs × AreIncreasing t xs

pub AreIncreasing-append_one :
    {A : Type 0} (t : A → ℕ) (b : ℕ) (xs : List A) (y : A)
    → All (λ x. t x ≤ b) xs
    → b < t y
    → AreIncreasing t xs
    → AreIncreasing t (xs ++ y ∷ [])
AreIncreasing-append_one t b [] y h k i = (tt, tt)
AreIncreasing-append_one t b (x ∷ xs) y h k i = (
  All-append (λ z. t x < t z) xs (y ∷ []) i.0 (omega (arith, h.0, k), tt),
  AreIncreasing-append_one t b xs y h.1 k i.1,
)

pub AreIncreasing-keep :
    {A : Type 0} (t : A → ℕ) (f : A → Bool) (xs : List A)
    → AreIncreasing t xs
    → AreIncreasing t (keep f xs)
AreIncreasing-keep t f [] i = tt
AreIncreasing-keep t f (x ∷ xs) i = elim (Bool-cases (f x)) [
  | inl e ↦ rw e (All-keep (λ y. t x < t y) f xs i.0, AreIncreasing-keep t f xs i.1)
  | inr e ↦ rw e (AreIncreasing-keep t f xs i.1)
]
