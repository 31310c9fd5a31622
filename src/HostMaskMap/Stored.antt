-- ===== src/HostMaskMap/Stored.antt =====
-- What the trie of src/host_mask.rs stores, as a map from paths, and how `insert` and `remove`
-- change it.
use titanirc.Base.{
  ◌≡◌, refl, ◌∙◌, true, false, Option, none, some, List, [], ◌∷◌, arith, if◌then◌else◌,
  Option-cases, is_empty, inl, inr,
}
use titanirc.HostMask.{HostMask}
use titanirc.HostMaskMap.{
  Key, key_beq, Matcher, HostMaskMap, host_mask_map, Node, match_value, inner, Children, nil,
  matcher_of, child, put_child, is_leaf, child_matcher, node_or_new,
}
use titanirc.HostMaskMap.Paths.{key_beq_iff, path_beq, path, step_key, path_step}
use titanirc.HostMaskMap.WellFormed.{
  IsWellFormed, IsNodeOf, AreWellFormed, child-IsNodeOf, put_child-AreWellFormed, child-put_child,
}

module _ {T : Type 0} where
  -- The value under a path of keys.
  abbrev pub stored : HostMaskMap T → List Key → Option T
  stored (host_mask_map cs m) [] = none
  stored (host_mask_map cs m) (k ∷ p) = elim (child k cs) [
    | none ↦ none
    | some (match_value v) ↦ if is_empty p then some v else none
    | some (inner map) ↦ stored map p
  ]

  pub stored-nil : (map : HostMaskMap T) → stored map [] ≡ none
  stored-nil (host_mask_map cs m) = refl

  pub stored-empty : (m : Matcher) (p : List Key) → stored (host_mask_map nil m) p ≡ none
  stored-empty m [] = refl
  stored-empty m (k ∷ p) = refl

  -- What an insertion has to deliver.
  pub record IsInserted (map : HostMaskMap T) (mask : HostMask) (v : T) (out : HostMaskMap T)
      : Type 0 where
    pub well_formed : IsWellFormed out
    pub same_matcher : matcher_of out ≡ matcher_of map
    pub stores :
        (q : List Key)
        → stored out q ≡ (if path_beq (path (matcher_of map) mask) q then some v else stored map q)

  -- What a node stores under the rest of a path.
  abbrev pub stored_at : Option (Node T) → List Key → Option T
  stored_at none p = none
  stored_at (some (match_value v)) p = if is_empty p then some v else none
  stored_at (some (inner map)) p = stored map p

  pub stored-cons :
      (cs : Children T) (m : Matcher) (k : Key) (p : List Key)
      → stored (host_mask_map cs m) (k ∷ p) ≡ stored_at (child k cs) p
  stored-cons cs m k p = ground arith

  pub stored-put_child :
      (cs : Children T) (m : Matcher) (j k : Key) (n : Node T) (p : List Key)
      → stored (host_mask_map (put_child j n cs) m) (k ∷ p)
        ≡ (if key_beq j k then stored_at (some n) p else stored (host_mask_map cs m) (k ∷ p))
  stored-put_child cs m j k n p =
      ground (
        arith,
        child-put_child j k n cs,
        stored-cons cs m k p,
        stored-cons (put_child j n cs) m k p,
      )

  -- At a leaf key nothing is stored under a longer path.
  pub stored_leaf :
      (cs : Children T) (m : Matcher) (k j : Key) (p : List Key)
      → AreWellFormed m cs
      → is_leaf m k ≡ true
      → stored (host_mask_map cs m) (k ∷ j ∷ p) ≡ none
  unfolding IsNodeOf
  stored_leaf cs m k j p w leaf = elim (Option-cases (child k cs)) [
    | inl e ↦ rw (stored-cons cs m k (j ∷ p), e)
    | inr (match_value v, e) ↦ rw (stored-cons cs m k (j ∷ p), e)
    | inr (inner map, e) ↦ cc (leaf, (child-IsNodeOf m k cs (inner map) w e).0)
  ]

  leaf_stores :
      (cs : Children T) (m : Matcher) (k : Key) (v : T) (q : List Key)
      → AreWellFormed m cs
      → is_leaf m k ≡ true
      → stored (host_mask_map (put_child k (match_value v) cs) m) q
        ≡ (if path_beq (k ∷ []) q then some v else stored (host_mask_map cs m) q)
  leaf_stores cs m k v [] w leaf = refl
  leaf_stores cs m k v (i ∷ []) w leaf =
      ground (arith, stored-put_child cs m k i (match_value v) [])
  leaf_stores cs m k v (i ∷ j ∷ p) w leaf = ground (
    arith,
    stored-put_child cs m k i (match_value v) (j ∷ p),
    key_beq_iff k i,
    stored_leaf cs m k j p w leaf,
  )

  pub insert_leaf :
      (cs : Children T) (m : Matcher) (mask : HostMask) (v : T)
      → AreWellFormed m cs
      → is_leaf m (step_key m mask) ≡ true
      → IsInserted
          (host_mask_map cs m)
          mask
          v
          (host_mask_map (put_child (step_key m mask) (match_value v) cs) m)
  unfolding IsWellFormed
  insert_leaf cs m mask v w leaf = record {
    well_formed = put_child-AreWellFormed m (step_key m mask) (match_value v) cs w leaf;
    same_matcher = refl;
    stores = λ q. rw (path_step m mask, leaf) (leaf_stores cs m (step_key m mask) v q w leaf);
  }

  -- The map that `or_insert_with` finds or makes stores what stood below the key.
  node_stores :
      (cs : Children T) (m : Matcher) (k : Key) (map : HostMaskMap T) (p : List Key)
      → node_or_new m k cs ≡ inner map
      → stored map p ≡ stored (host_mask_map cs m) (k ∷ p)
  node_stores cs m k map p e = elim (Option-cases (child k cs)) [
    | inl h ↦ ground (arith, stored-cons cs m k p, stored-empty (child_matcher m k) p)
    | inr (n, h) ↦ ground (arith, stored-cons cs m k p)
  ]

  pub node_or_new-IsNodeOf :
      (cs : Children T) (m : Matcher) (k : Key)
      → AreWellFormed m cs
      → is_leaf m k ≡ false
      → IsNodeOf m k (node_or_new m k cs)
  unfolding IsNodeOf
  node_or_new-IsNodeOf cs m k w leaf = elim (Option-cases (child k cs)) [
    | inl h ↦ rw h (leaf, refl, tt)
    | inr (n, h) ↦ rw h (child-IsNodeOf m k cs n w h)
  ]

  pub insert_below :
      (cs : Children T) (m : Matcher) (mask next_mask : HostMask) (v : T) (map out : HostMaskMap T)
      (k : Key)
      → AreWellFormed m cs
      → is_leaf m k ≡ false
      → path m mask ≡ k ∷ path (child_matcher m k) next_mask
      → node_or_new m k cs ≡ inner map
      → matcher_of map ≡ child_matcher m k
      → IsInserted map next_mask v out
      → IsInserted (host_mask_map cs m) mask v (host_mask_map (put_child k (inner out) cs) m)
  unfolding IsNodeOf
  insert_below cs m mask next_mask v map out k w leaf way e same i = record {
    well_formed =
        put_child-AreWellFormed m k (inner out) cs w (leaf, i.same_matcher ∙ same, i.well_formed);
    same_matcher = refl;
    stores = λ q. rw way (below_stores q);
  }
    where
      below_stores :
          (q : List Key)
          → stored (host_mask_map (put_child k (inner out) cs) m) q ≡ (
              if path_beq (k ∷ path (child_matcher m k) next_mask) q
              then some v
              else stored (host_mask_map cs m) q)
      below_stores [] = refl
      below_stores (j ∷ p) = ground (
        arith,
        stored-put_child cs m k j (inner out) p,
        key_beq_iff k j,
        i.stores p,
        node_stores cs m k map p e,
      )
