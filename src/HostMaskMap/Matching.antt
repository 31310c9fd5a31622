-- ===== src/HostMaskMap/Matching.antt =====
-- `HostMaskMap::get` of src/host_mask.rs returns the values of the stored paths that accept the
-- mask, all of them and no others.
use titanirc.Base.{
  ◌≡◌, refl, Bool, true, ◌&&◌, ◌||◌, Option, none, some, List, [], ◌∷◌, arith, inl, inr, ◌⊎◌, ◌↔◌,
  Has, Has-append, Has-append_left, Has-append_right,
}
use titanirc.HostMask.{HostMask}
use titanirc.HostMaskMap.{
  Key, key_beq, wildcard, lookup_key, HostMaskMap, host_mask_map, Node, match_value, inner,
  Children, nil, entry, take_next, matcher_of, Matcher, child, child_matcher, get_inner, traverse,
  get_below, get,
}
use titanirc.HostMaskMap.Paths.{key_beq_iff}
use titanirc.HostMaskMap.WellFormed.{IsWellFormed, IsNodeOf, AreWellFormed, child-IsNodeOf}
use titanirc.HostMaskMap.Stored.{stored, stored_at, stored-cons}
use titanirc.HostMaskMap.Induction.{trie_induction}

-- A path accepts a mask: each key is a wildcard, or the key that the mask follows.
abbrev pub follows : Matcher → Key → HostMask → Bool
follows m k mask = key_beq k wildcard || key_beq k (lookup_key (take_next m mask).0)

abbrev pub accepts : Matcher → List Key → HostMask → Bool
accepts m [] mask = true
accepts m (k ∷ p) mask = follows m k mask && accepts (child_matcher m k) p (take_next m mask).1

wildcard_or_key :
    (m : Matcher) (k : Key) (p : List Key) (mask : HostMask)
    → accepts m (k ∷ p) mask ≡ true
    → ((k ≡ wildcard) ⊎ (k ≡ lookup_key (take_next m mask).0))
      × (accepts (child_matcher m k) p (take_next m mask).1 ≡ true)
wildcard_or_key m k p mask a =
    ground (arith, key_beq_iff k wildcard, key_beq_iff k (lookup_key (take_next m mask).0))

module _ {T : Type 0} where
  unfoldable pub traverse_found : Option (Node T) → HostMask → List T → List T
  traverse_found none mask out = out
  traverse_found (some n) mask out = traverse n mask out

  get_below-eq-traverse :
      (cs : Children T) (k : Key) (mask : HostMask) (out : List T)
      → get_below cs k mask out ≡ traverse_found (child k cs) mask out
  unfolding get_below traverse_found
  get_below-eq-traverse nil k mask out = refl
  get_below-eq-traverse (entry j n cs) k mask out =
      ground (arith, get_below-eq-traverse cs k mask out)

  -- `v` stands under a path of the map that accepts the mask.
  abbrev pub Accepted : HostMaskMap T → HostMask → T → Type 0
  Accepted map mask v =
      (p : List Key) × (stored map p ≡ some v) × (accepts (matcher_of map) p mask ≡ true)

  abbrev Sound : HostMaskMap T → Type 0
  Sound map =
      IsWellFormed map
      → (mask : HostMask) (out : List T) (v : T) → Has v (get_inner map mask out)
      → Has v out ⊎ Accepted map mask v

  abbrev Complete : HostMaskMap T → Type 0
  Complete map =
      IsWellFormed map
      → (mask : HostMask) (out : List T) (v : T)
      → (Has v out → Has v (get_inner map mask out))
        × (Accepted map mask v → Has v (get_inner map mask out))

  -- A path from a map below is a path from the map.
  Accepted-below :
      (cs : Children T) (m : Matcher) (k : Key) (mask : HostMask) (map : HostMaskMap T) (v : T)
      → child k cs ≡ some (inner map)
      → matcher_of map ≡ child_matcher m k
      → follows m k mask ≡ true
      → Accepted map (take_next m mask).1 v
      → Accepted (host_mask_map cs m) mask v
  Accepted-below cs m k mask map v e same f (p, holds, accepted) =
      (k ∷ p, rw (stored-cons cs m k p, e) holds, rw f (rw same at accepted))

  found-Sound :
      (cs : Children T) (m : Matcher) (k : Key) (mask : HostMask) (out : List T) (v : T)
      (n : Option (Node T))
      → AreWellFormed m cs
      → ((map : HostMaskMap T) → child k cs ≡ some (inner map) → Sound map)
      → follows m k mask ≡ true
      → child k cs ≡ n
      → Has v (traverse_found n (take_next m mask).1 out)
      → Has v out ⊎ Accepted (host_mask_map cs m) mask v
  unfolding traverse IsNodeOf traverse_found
  found-Sound cs m k mask out v none w ih f e h = inl h
  found-Sound cs m k mask out v (some (match_value u)) w ih f e h =
      elim (Has-append v out (u ∷ []) h) [
        | inl old ↦ inl old
        | inr (inl same) ↦ inr (k ∷ [], rw (stored-cons cs m k [], e, same), rw f)
        | inr (inr never) ↦ absurd never
      ]
  found-Sound cs m k mask out v (some (inner map)) w ih f e h =
      let (leaf, same, below) = child-IsNodeOf m k cs (inner map) w e in
      elim (ih map e below (take_next m mask).1 out v h) [
        | inl old ↦ inl old
        | inr a ↦ inr (Accepted-below cs m k mask map v e same f a)
      ]

  below-Sound :
      (cs : Children T) (m : Matcher) (k : Key) (mask : HostMask) (out : List T) (v : T)
      → AreWellFormed m cs
      → ((map : HostMaskMap T) → child k cs ≡ some (inner map) → Sound map)
      → follows m k mask ≡ true
      → Has v (get_below cs k (take_next m mask).1 out)
      → Has v out ⊎ Accepted (host_mask_map cs m) mask v
  below-Sound cs m k mask out v w ih f h =
      found-Sound cs m k mask out v (child k cs) w ih f refl
        (rw (get_below-eq-traverse cs k (take_next m mask).1 out) at h)

  get_inner-Sound : (map : HostMaskMap T) → Sound map
  unfolding get_inner IsWellFormed
  get_inner-Sound = trie_induction Sound λ cs m ih w mask out v h.
      let key : Key = lookup_key (take_next m mask).0 in
      elim (below-Sound cs m wildcard mask (get_below cs key (take_next m mask).1 out) v w
        (ih wildcard) refl h) [
          | inl earlier ↦
              below-Sound cs m key mask out v w (ih key) (ground (arith, key_beq_iff key key))
                earlier
          | inr a ↦ inr a
        ]

  keeps_out :
      (cs : Children T) (m : Matcher) (k : Key) (mask : HostMask) (out : List T) (v : T)
      (n : Option (Node T))
      → AreWellFormed m cs
      → ((map : HostMaskMap T) → child k cs ≡ some (inner map) → Complete map)
      → child k cs ≡ n
      → Has v out
      → Has v (traverse_found n mask out)
  unfolding traverse IsNodeOf traverse_found
  keeps_out cs m k mask out v none w ih e h = h
  keeps_out cs m k mask out v (some (match_value u)) w ih e h = Has-append_left v out (u ∷ []) h
  keeps_out cs m k mask out v (some (inner map)) w ih e h =
      (ih map e (child-IsNodeOf m k cs (inner map) w e).2 mask out v).0 h

  below_keeps :
      (cs : Children T) (m : Matcher) (k : Key) (mask : HostMask) (out : List T) (v : T)
      → AreWellFormed m cs
      → ((map : HostMaskMap T) → child k cs ≡ some (inner map) → Complete map)
      → Has v out
      → Has v (get_below cs k mask out)
  below_keeps cs m k mask out v w ih h =
      rw (get_below-eq-traverse cs k mask out)
        (keeps_out cs m k mask out v (child k cs) w ih refl h)

  found-Complete :
      (cs : Children T) (m : Matcher) (k : Key) (mask : HostMask) (out : List T) (v : T)
      (n : Option (Node T)) (p : List Key)
      → AreWellFormed m cs
      → ((map : HostMaskMap T) → child k cs ≡ some (inner map) → Complete map)
      → child k cs ≡ n
      → stored_at n p ≡ some v
      → accepts (child_matcher m k) p mask ≡ true
      → Has v (traverse_found n mask out)
  unfolding traverse IsNodeOf traverse_found
  found-Complete cs m k mask out v none p w ih e s a = cc
  found-Complete cs m k mask out v (some (match_value u)) [] w ih e s a =
      Has-append_right v out (u ∷ []) (inl (cc))
  found-Complete cs m k mask out v (some (match_value u)) (j ∷ p) w ih e s a = cc
  found-Complete cs m k mask out v (some (inner map)) p w ih e s a =
      let (leaf, same, below) = child-IsNodeOf m k cs (inner map) w e in
      (ih map e below mask out v).1 (p, s, rw same a)

  below-Complete :
      (cs : Children T) (m : Matcher) (k : Key) (mask : HostMask) (out : List T) (v : T)
      (p : List Key)
      → AreWellFormed m cs
      → ((map : HostMaskMap T) → child k cs ≡ some (inner map) → Complete map)
      → stored (host_mask_map cs m) (k ∷ p) ≡ some v
      → accepts (child_matcher m k) p mask ≡ true
      → Has v (get_below cs k mask out)
  below-Complete cs m k mask out v p w ih s a =
      rw (get_below-eq-traverse cs k mask out) (
        found-Complete cs m k mask out v (child k cs) p w ih refl (rw (stored-cons cs m k p) at s)
          a)

  level-Complete :
      (cs : Children T) (m : Matcher) (mask : HostMask) (out : List T) (v : T) (k : Key)
      (p : List Key)
      → AreWellFormed m cs
      → ((j : Key) (map : HostMaskMap T) → child j cs ≡ some (inner map) → Complete map)
      → stored (host_mask_map cs m) (k ∷ p) ≡ some v
      → (k ≡ wildcard) ⊎ (k ≡ lookup_key (take_next m mask).0)
      → accepts (child_matcher m k) p (take_next m mask).1 ≡ true
      → Has v (get_inner (host_mask_map cs m) mask out)
  unfolding get_inner
  level-Complete cs m mask out v k p w ih s (inl e) a =
      below-Complete cs m wildcard (take_next m mask).1 _ v p w (ih wildcard) (rw e at s)
        (rw e at a)
  level-Complete cs m mask out v k p w ih s (inr e) a =
      let key : Key = lookup_key (take_next m mask).0 in
      below_keeps cs m wildcard (take_next m mask).1 (get_below cs key (take_next m mask).1 out) v w
        (ih wildcard)
        (below-Complete cs m key (take_next m mask).1 out v p w (ih key) (rw e at s) (rw e at a))

  any_level-Complete :
      (cs : Children T) (m : Matcher) (mask : HostMask) (out : List T) (v : T) (p : List Key)
      → AreWellFormed m cs
      → ((j : Key) (map : HostMaskMap T) → child j cs ≡ some (inner map) → Complete map)
      → stored (host_mask_map cs m) p ≡ some v
      → accepts m p mask ≡ true
      → Has v (get_inner (host_mask_map cs m) mask out)
  any_level-Complete cs m mask out v [] w ih s a = cc
  any_level-Complete cs m mask out v (k ∷ p) w ih s a =
      let (which, rest) = wildcard_or_key m k p mask a in
      level-Complete cs m mask out v k p w ih s which rest

  get_inner-Complete : (map : HostMaskMap T) → Complete map
  unfolding get_inner IsWellFormed
  get_inner-Complete = trie_induction Complete λ cs m ih w mask out v. (
    λ h. below_keeps cs m wildcard (take_next m mask).1 _ v w (ih wildcard) (
        below_keeps cs m (lookup_key (take_next m mask).0) (take_next m mask).1 out v w
          (ih (lookup_key (take_next m mask).0)) h),
    λ (p, s, a). any_level-Complete cs m mask out v p w ih s a,
  )

  -- `get` returns a value exactly when it stands under a path that accepts the mask.
  pub Has-get :
      (map : HostMaskMap T) (mask : HostMask) (v : T)
      → IsWellFormed map
      → Has v (get map mask) ↔ Accepted map mask v
  unfolding get
  Has-get map mask v w = (
    λ h. elim (get_inner-Sound map w mask [] v h) [ inl never ↦ absurd never | inr a ↦ a ],
    λ a. (get_inner-Complete map w mask [] v).1 a,
  )
