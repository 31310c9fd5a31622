-- ===== src/HostMaskMap/Removal.antt =====
-- `HostMaskMap::remove` of src/host_mask.rs takes away the value of one path, and says whether
-- there was one.
use titanirc.Base.{
  ◌≡◌, refl, ◌∙◌, true, false, none, some, List, [], ◌∷◌, arith, if◌then◌else◌, is_some, Bool-cases,
  Option-cases, inl, inr,
}
use titanirc.HostMask.{HostMask}
use titanirc.HostMaskMap.{
  Key, key_beq, HostMaskMap, host_mask_map, Node, match_value, inner, Children, nil, entry,
  take_next, matcher_of, Matcher, child, remove_child, is_leaf, child_matcher, remove, remove_node,
  remove_below,
}
use titanirc.HostMaskMap.Paths.{key_beq_iff, path_beq, path, step_key, path_step}
use titanirc.HostMaskMap.WellFormed.{
  IsWellFormed, IsNodeOf, AreWellFormed, child-IsNodeOf, remove_child-AreWellFormed,
  child-remove_child,
}
use titanirc.HostMaskMap.Stored.{stored, stored-cons, stored_leaf}
use titanirc.HostMaskMap.Induction.{trie_induction}

module _ {T : Type 0} where
  child-remove_below :
      (cs : Children T) (k j : Key) (mask : HostMask)
      → child j (remove_below cs k mask).0 ≡ (
          if key_beq k j
          then elim (child k cs) [ none ↦ none | some n ↦ some (remove_node n mask).0 ]
          else child j cs)
  unfolding remove_below
  child-remove_below nil k j mask = ground arith
  child-remove_below (entry i n cs) k j mask =
      ground
        (arith, key_beq_iff k j, key_beq_iff i k, key_beq_iff i j, child-remove_below cs k j mask)

  found-remove_below :
      (cs : Children T) (k : Key) (mask : HostMask)
      → (remove_below cs k mask).1
        ≡ elim (child k cs) [ none ↦ false | some n ↦ (remove_node n mask).1 ]
  unfolding remove_below
  found-remove_below nil k mask = refl
  found-remove_below (entry i n cs) k mask = ground (arith, found-remove_below cs k mask)

  -- What a removal has to deliver.
  pub record IsRemoved (map : HostMaskMap T) (mask : HostMask) : Type 0 where
    pub well_formed : IsWellFormed (remove map mask).0
    pub same_matcher : matcher_of (remove map mask).0 ≡ matcher_of map
    pub stores :
        (q : List Key)
        → stored (remove map mask).0 q
          ≡ (if path_beq (path (matcher_of map) mask) q then none else stored map q)
    pub found : (remove map mask).1 ≡ is_some (stored map (path (matcher_of map) mask))

  abbrev Removes : HostMaskMap T → Type 0
  Removes map = IsWellFormed map → (mask : HostMask) → IsRemoved map mask

  removed_node-IsNodeOf :
      (m : Matcher) (k : Key) (n : Node T) (mask : HostMask)
      → ((map : HostMaskMap T) → n ≡ inner map → Removes map)
      → IsNodeOf m k n
      → IsNodeOf m k (remove_node n mask).0
  unfolding remove_node IsNodeOf
  removed_node-IsNodeOf m k (match_value v) mask ih h = h
  removed_node-IsNodeOf m k (inner map) mask ih h =
      let i = ih map refl h.2 mask in (h.0, i.same_matcher ∙ h.1, i.well_formed)

  remove_below-AreWellFormed :
      (m : Matcher) (cs : Children T) (k : Key) (mask : HostMask)
      → AreWellFormed m cs
      → ((map : HostMaskMap T) → child k cs ≡ some (inner map) → Removes map)
      → AreWellFormed m (remove_below cs k mask).0
  unfolding remove_below IsNodeOf
  remove_below-AreWellFormed m nil k mask w ih = tt
  remove_below-AreWellFormed m (entry j n cs) k mask w ih = elim (Bool-cases (key_beq j k)) [
    | inl same ↦
        rw same (removed_node-IsNodeOf m j n mask (λ map e. ih map (rw (same, e))) w.0, w.1, w.2)
    | inr other ↦ rw other (
      w.0,
      rw child-remove_below (ground (arith, key_beq_iff k j, key_beq_iff j k)),
      remove_below-AreWellFormed m cs k mask w.2 (λ map e. ih map (rw (other, e))),
    )
  ]

  leaf_removes :
      (cs : Children T) (m : Matcher) (k : Key) (q : List Key)
      → AreWellFormed m cs
      → is_leaf m k ≡ true
      → stored (host_mask_map (remove_child k cs) m) q
        ≡ (if path_beq (k ∷ []) q then none else stored (host_mask_map cs m) q)
  leaf_removes cs m k [] w leaf = refl
  leaf_removes cs m k (j ∷ []) w leaf = ground (
    arith,
    stored-cons cs m j [],
    stored-cons (remove_child k cs) m j [],
    child-remove_child k j cs,
  )
  leaf_removes cs m k (j ∷ i ∷ p) w leaf = ground (
    arith,
    stored-cons cs m j (i ∷ p),
    stored-cons (remove_child k cs) m j (i ∷ p),
    child-remove_child k j cs,
    key_beq_iff k j,
    stored_leaf cs m k i p w leaf,
  )

  leaf_found :
      (cs : Children T) (m : Matcher) (k : Key)
      → AreWellFormed m cs
      → is_leaf m k ≡ true
      → is_some (child k cs) ≡ is_some (stored (host_mask_map cs m) (k ∷ []))
  unfolding IsNodeOf
  leaf_found cs m k w leaf = elim (Option-cases (child k cs)) [
    | inl e ↦ rw (stored-cons cs m k [], e)
    | inr (match_value v, e) ↦ rw (stored-cons cs m k [], e)
    | inr (inner map, e) ↦ cc (leaf, (child-IsNodeOf m k cs (inner map) w e).0)
  ]

  IsRemoved-leaf :
      (cs : Children T) (m : Matcher) (mask : HostMask)
      → AreWellFormed m cs
      → is_leaf m (step_key m mask) ≡ true
      → IsRemoved (host_mask_map cs m) mask
  unfolding remove IsWellFormed
  IsRemoved-leaf cs m mask w leaf = record {
    well_formed = rw leaf (remove_child-AreWellFormed m (step_key m mask) cs w);
    same_matcher = rw leaf;
    stores = λ q. rw (path_step m mask, leaf) (leaf_removes cs m (step_key m mask) q w leaf);
    found = rw (path_step m mask, leaf) (leaf_found cs m (step_key m mask) w leaf);
  }

  below-Removes :
      (cs : Children T) (m : Matcher) (k : Key) (mask : HostMask) (q : List Key)
      → AreWellFormed m cs
      → is_leaf m k ≡ false
      → ((map : HostMaskMap T) → child k cs ≡ some (inner map) → Removes map)
      → stored (host_mask_map (remove_below cs k mask).0 m) q ≡ (
          if path_beq (k ∷ path (child_matcher m k) mask) q
          then none
          else stored (host_mask_map cs m) q)
  unfolding remove_node IsNodeOf
  below-Removes cs m k mask [] w leaf ih = refl
  below-Removes cs m k mask (j ∷ p) w leaf ih = elim (Option-cases (child k cs)) [
    | inl e ↦ ground (
      arith,
      stored-cons cs m j p,
      stored-cons (remove_below cs k mask).0 m j p,
      child-remove_below cs k j mask,
      key_beq_iff k j,
    )
    | inr (match_value v, e) ↦ cc (leaf, child-IsNodeOf m k cs (match_value v) w e)
    | inr (inner map, e) ↦
        let h = child-IsNodeOf m k cs (inner map) w e in
        let below = (ih map e h.2 mask).stores p in
        ground (
          arith,
          stored-cons cs m j p,
          stored-cons (remove_below cs k mask).0 m j p,
          child-remove_below cs k j mask,
          key_beq_iff k j,
          below,
          h.1,
        )
  ]

  below_found :
      (cs : Children T) (m : Matcher) (k : Key) (mask : HostMask)
      → AreWellFormed m cs
      → is_leaf m k ≡ false
      → ((map : HostMaskMap T) → child k cs ≡ some (inner map) → Removes map)
      → (remove_below cs k mask).1
        ≡ is_some (stored (host_mask_map cs m) (k ∷ path (child_matcher m k) mask))
  unfolding remove_node IsNodeOf
  below_found cs m k mask w leaf ih = elim (Option-cases (child k cs)) [
    | inl e ↦
        rw (found-remove_below cs k mask, stored-cons cs m k (path (child_matcher m k) mask), e)
    | inr (match_value v, e) ↦ cc (leaf, child-IsNodeOf m k cs (match_value v) w e)
    | inr (inner map, e) ↦
        let h = child-IsNodeOf m k cs (inner map) w e in
        let below = (ih map e h.2 mask).found in
        rw (found-remove_below cs k mask, stored-cons cs m k (path (child_matcher m k) mask), e)
          (rw h.1 at below)
  ]

  IsRemoved-below :
      (cs : Children T) (m : Matcher) (mask : HostMask)
      → AreWellFormed m cs
      → is_leaf m (step_key m mask) ≡ false
      → ((map : HostMaskMap T) → child (step_key m mask) cs ≡ some (inner map) → Removes map)
      → IsRemoved (host_mask_map cs m) mask
  unfolding remove IsWellFormed
  IsRemoved-below cs m mask w leaf ih =
      let k : Key = step_key m mask in
      let next_mask : HostMask = (take_next m mask).1 in
      record {
        well_formed = rw leaf (remove_below-AreWellFormed m cs k next_mask w ih);
        same_matcher = rw leaf;
        stores = λ q. rw (path_step m mask, leaf) (below-Removes cs m k next_mask q w leaf ih);
        found = rw (path_step m mask, leaf) (below_found cs m k next_mask w leaf ih);
      }

  -- A removal clears the path of the mask and no other, and reports whether a value stood there.
  pub remove-IsRemoved :
      (map : HostMaskMap T) → IsWellFormed map → (mask : HostMask) → IsRemoved map mask
  unfolding IsWellFormed
  remove-IsRemoved = trie_induction Removes λ cs m ih w mask.
      elim (Bool-cases (is_leaf m (step_key m mask))) [
        | inl leaf ↦ IsRemoved-leaf cs m mask w leaf
        | inr leaf ↦ IsRemoved-below cs m mask w leaf (ih (step_key m mask))
      ]
