-- ===== src/HostMaskMap/Iteration.antt =====
-- `HostMaskMap::iter` of src/host_mask.rs lists each stored value once, with the text of its path.
use titanirc.Base.{
  ◌≡◌, refl, ap, sym, ◌∙◌, none, some, List, [], ◌∷◌, arith, Bool-cases, inl, inr, ◌↔◌, Has,
  Has-append, Has-append_left, Has-append_right, Text,
}
use titanirc.HostMaskMap.{
  Key, key_beq, HostMaskMap, host_mask_map, Node, match_value, inner, Children, nil, entry,
  matcher_of, Matcher, child, child_matcher, iter_inner, iter_node, iter_children, extend, iter,
}
use titanirc.HostMaskMap.Paths.{key_beq_iff}
use titanirc.HostMaskMap.WellFormed.{IsWellFormed, IsNodeOf, AreWellFormed}
use titanirc.HostMaskMap.Stored.{stored, stored_at, stored-cons}
use titanirc.HostMaskMap.Induction.{trie_induction}

-- The text of a path, behind what is written already.
abbrev pub render : Text → Matcher → List Key → Text
render s m [] = s
render s m (k ∷ p) = render (extend s m k).0 (extend s m k).1 p

extend_matcher : (s : Text) (m : Matcher) (k : Key) → (extend s m k).1 ≡ child_matcher m k
extend_matcher s m Key.wildcard = refl
extend_matcher s m Key.end_of_string = refl
extend_matcher s m (Key.char c) = refl

module _ {T : Type 0} where
  abbrev Renders : HostMaskMap T → Text → Text → T → Type 0
  Renders map s t v = (p : List Key) × (stored map p ≡ some v) × (t ≡ render s (matcher_of map) p)

  abbrev Lists : HostMaskMap T → Type 0
  Lists map =
      IsWellFormed map
      → (s t : Text) (v : T) → Has (t, v) (iter_inner map s (matcher_of map)) ↔ Renders map s t v

  -- The same for the entries of a map, the matcher given.
  abbrev RendersBelow : Children T → Matcher → Text → Text → T → Type 0
  RendersBelow cs m s t v =
      (k : Key) × (p : List Key) × (stored_at (child k cs) p ≡ some v) × (t ≡ render s m (k ∷ p))

  node-Lists :
      (m : Matcher) (k : Key) (n : Node T) (s t : Text) (v : T)
      → ((map : HostMaskMap T) → n ≡ inner map → Lists map)
      → IsNodeOf m k n
      → Has (t, v) (iter_node n (extend s m k).0 (extend s m k).1)
        ↔ ((p : List Key) × (stored_at (some n) p ≡ some v) × (t ≡ render s m (k ∷ p)))
  unfolding iter_node IsNodeOf
  node-Lists m k (match_value u) s t v ih h = (value_listed, value_found)
    where
      value_listed :
          Has {A = Text × T} (t, v) (((extend s m k).0, u) ∷ [])
          → (p : List Key) × (stored_at (some (match_value u)) p ≡ some v)
            × (t ≡ render s m (k ∷ p))
      value_listed (inl e) =
          ([], ap (λ (x : Text × T). some x.1) (sym e), ap (λ (x : Text × T). x.0) e)
      value_listed (inr never) = absurd never

      value_found :
          ((p : List Key) × (stored_at (some (match_value u)) p ≡ some v)
            × (t ≡ render s m (k ∷ p)))
          → Has {A = Text × T} (t, v) (((extend s m k).0, u) ∷ [])
      value_found ([], e, r) = inl (ground arith)
      value_found (j ∷ p, e, r) = cc
  node-Lists m k (inner map) s t v ih h =
      rw (h.1 ∙ sym (extend_matcher s m k)) at (ih map refl h.2 (extend s m k).0 t v)

  -- No key of the rest is the key of an entry.
  other_key :
      (j k : Key) (n : Node T) (cs : Children T) {o : Node T}
      → child j cs ≡ none
      → child k cs ≡ some o
      → child k (entry j n cs) ≡ some o
  other_key j k n cs fresh e = ground (arith, key_beq_iff j k)

  stored_at_rest :
      (j k : Key) (n : Node T) (cs : Children T) (p : List Key) (v : T)
      → child j cs ≡ none
      → stored_at (child k cs) p ≡ some v
      → stored_at (child k (entry j n cs)) p ≡ some v
  stored_at_rest j k n cs p v fresh h = ground (arith, key_beq_iff j k)

  children_list :
      (cs : Children T) (m : Matcher) (s t : Text) (v : T)
      → AreWellFormed m cs
      → ((k : Key) (map : HostMaskMap T) → child k cs ≡ some (inner map) → Lists map)
      → Has (t, v) (iter_children cs s m)
      → RendersBelow cs m s t v
  unfolding iter_children IsNodeOf
  children_list nil m s t v w ih h = elim h [ ]
  children_list (entry j n cs) m s t v w ih h =
      elim (Has-append (t, v) (iter_node n (extend s m j).0 (extend s m j).1) (iter_children cs s m)
        h) [
          | inl here ↦
              let (p, sat, e) =
                (node-Lists m j n s t v (λ map e. ih j map (ground (arith, key_beq_iff j j))) w.0).0
                  here in
              (j, p, ground (arith, key_beq_iff j j), e)
          | inr there ↦
              let (k, p, sat, e) =
                children_list cs m s t v w.2 (λ k map e. ih k map (other_key j k n cs w.1 e))
                  there in
              (k, p, stored_at_rest j k n cs p v w.1 sat, e)
        ]

  children_listed :
      (cs : Children T) (m : Matcher) (s t : Text) (v : T) (k : Key) (p : List Key)
      → AreWellFormed m cs
      → ((k : Key) (map : HostMaskMap T) → child k cs ≡ some (inner map) → Lists map)
      → stored_at (child k cs) p ≡ some v
      → t ≡ render s m (k ∷ p)
      → Has (t, v) (iter_children cs s m)
  unfolding iter_children IsNodeOf
  children_listed nil m s t v k p w ih sat e = cc
  children_listed (entry j n cs) m s t v k p w ih sat e = elim (Bool-cases (key_beq j k)) [
    | inl same ↦
        Has-append_left (t, v) (iter_node n (extend s m j).0 (extend s m j).1)
          (iter_children cs s m)
          ((node-Lists m j n s t v (λ map e. ih j map (ground (arith, key_beq_iff j j))) w.0).1
            (p, rw same at sat, rw ((key_beq_iff j k).0 same) e))
    | inr other ↦
        Has-append_right (t, v) (iter_node n (extend s m j).0 (extend s m j).1)
          (iter_children cs s m)
          (children_listed cs m s t v k p w.2 (λ i map h. ih i map (other_key j i n cs w.1 h))
            (rw other at sat) e)
  ]

  children_listed_path :
      (cs : Children T) (m : Matcher) (s t : Text) (v : T) (p : List Key)
      → AreWellFormed m cs
      → ((k : Key) (map : HostMaskMap T) → child k cs ≡ some (inner map) → Lists map)
      → stored (host_mask_map cs m) p ≡ some v
      → t ≡ render s m p
      → Has (t, v) (iter_children cs s m)
  children_listed_path cs m s t v [] w ih sat e = cc
  children_listed_path cs m s t v (k ∷ p) w ih sat e =
      children_listed cs m s t v k p w ih (sym (stored-cons cs m k p) ∙ sat) e

  iter_inner-Lists : (map : HostMaskMap T) → Lists map
  unfolding iter_inner IsWellFormed
  iter_inner-Lists = trie_induction Lists λ cs m ih w s t v. (
    λ h.
        let (k, p, sat, e) = children_list cs m s t v w ih h in
        (k ∷ p, stored-cons cs m k p ∙ sat, e),
    λ (p, sat, e). children_listed_path cs m s t v p w ih sat e,
  )

  -- The pairs of the iteration are the stored values, each with the text of its path.
  pub Has-iter :
      (map : HostMaskMap T) (t : Text) (v : T)
      → IsWellFormed map
      → Has (t, v) (iter map)
        ↔ ((p : List Key) × (stored map p ≡ some v) × (t ≡ render [] (matcher_of map) p))
  unfolding iter
  Has-iter map t v w = iter_inner-Lists map w [] t v
