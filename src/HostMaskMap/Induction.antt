-- ===== src/HostMaskMap/Induction.antt =====
-- Induction over the tries of src/host_mask.rs, by the maps below a map.
use titanirc.Base.{◌≡◌, some, arith, Bool-cases, inl, inr}
use mathlib.Core.Path.{subst}
use titanirc.HostMaskMap.{
  Key, key_beq, HostMaskMap, host_mask_map, Node, match_value, inner, Children, nil, entry, Matcher,
  child,
}

abbrev Step : (T : Type 0) → (HostMaskMap T → Type 0) → Type 0
Step T P =
    (cs : Children T) (m : Matcher)
    → ((k : Key) (map : HostMaskMap T) → child k cs ≡ some (inner map) → P map)
    → P (host_mask_map cs m)

abbrev InnerOf : {T : Type 0} → (HostMaskMap T → Type 0) → Node T → Type 0
InnerOf P (match_value v) = Unit
InnerOf P (inner map) = P map

inner_of :
    {T : Type 0} (P : HostMaskMap T → Type 0) (n : Node T) (map : HostMaskMap T)
    → n ≡ inner map
    → InnerOf P n
    → P map
inner_of P n map e h = subst (InnerOf P) e h

found_inner :
    {T : Type 0} (P : HostMaskMap T → Type 0) (i k : Key) (n : Node T) (cs : Children T)
    (map : HostMaskMap T)
    → InnerOf P n
    → (child k cs ≡ some (inner map) → P map)
    → child k (entry i n cs) ≡ some (inner map)
    → P map
found_inner P i k n cs map here there e = elim (Bool-cases (key_beq i k)) [
  | inl same ↦ inner_of P n map (ground arith) here
  | inr other ↦ there (ground arith)
]

mutual
  map_induction :
      {T : Type 0} (P : HostMaskMap T → Type 0) → Step T P → (map : HostMaskMap T) → P map
  map_induction P step (host_mask_map cs m) = step cs m (children_induction P step cs)

  node_induction : {T : Type 0} (P : HostMaskMap T → Type 0) → Step T P → (n : Node T) → InnerOf P n
  node_induction P step (match_value v) = tt
  node_induction P step (inner map) = map_induction P step map

  children_induction :
      {T : Type 0} (P : HostMaskMap T → Type 0)
      → Step T P
      → (cs : Children T) (k : Key) (map : HostMaskMap T) → child k cs ≡ some (inner map)
      → P map
  children_induction P step nil k map e = cc
  children_induction P step (entry i n cs) k map e =
      found_inner P i k n cs map (node_induction P step n) (children_induction P step cs k map) e

-- What holds of a map when it holds of the maps below it holds of every map.
pub trie_induction :
    {T : Type 0} (P : HostMaskMap T → Type 0)
    → ((cs : Children T) (m : Matcher)
        → ((k : Key) (map : HostMaskMap T) → child k cs ≡ some (inner map) → P map)
        → P (host_mask_map cs m))
    → (map : HostMaskMap T) → P map
trie_induction P step map = map_induction P step map
