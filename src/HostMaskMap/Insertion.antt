-- ===== src/HostMaskMap/Insertion.antt =====
-- `HostMaskMap::insert` of src/host_mask.rs: it ends, it never meets the `unreachable!`, and it
-- sets the value of one path.
use titanirc.Base.{
  ℕ, zero, suc, ◌≤◌, ◌≡◌, refl, false, some, List, arith, if◌then◌else◌, Bool-cases, inl, inr,
}
use titanirc.HostMask.{HostMask}
use titanirc.HostMaskMap.{
  Key, HostMaskMap, host_mask_map, Node, match_value, inner, Children, take_next, matcher_of,
  Matcher, is_leaf, child_matcher, weight, Outcome, done, node_or_new, insert_fuel, insert,
}
use titanirc.HostMaskMap.Paths.{path_beq, path, step_key, path_step, weight_step, weight-pos}
use titanirc.HostMaskMap.WellFormed.{IsWellFormed, IsNodeOf, AreWellFormed}
use titanirc.HostMaskMap.Stored.{
  stored, IsInserted, insert_leaf, insert_below, node_or_new-IsNodeOf,
}

module _ {T : Type 0} where
  abbrev Inserts : HostMaskMap T → HostMask → T → Outcome (HostMaskMap T) → Type 0
  Inserts map mask v o = (out : HostMaskMap T) × (o ≡ done out) × IsInserted map mask v out

  insert_level :
      (fuel : ℕ) (cs : Children T) (m : Matcher) (mask : HostMask) (v : T) (n : Node T)
      → AreWellFormed m cs
      → is_leaf m (step_key m mask) ≡ false
      → IsNodeOf m (step_key m mask) n
      → node_or_new m (step_key m mask) cs ≡ n
      → ((map : HostMaskMap T)
          → IsWellFormed map
          → matcher_of map ≡ child_matcher m (step_key m mask)
          → Inserts map (take_next m mask).1 v (insert_fuel fuel map (take_next m mask).1 v))
      → Inserts (host_mask_map cs m) mask v (insert_fuel (suc fuel) (host_mask_map cs m) mask v)
  unfolding insert_fuel IsNodeOf
  insert_level fuel cs m mask v (match_value u) w leaf h e below = cc (leaf, h)
  insert_level fuel cs m mask v (inner map) w leaf h e below =
      let (out, ended, i) = below map h.2 h.1 in
      let k : Key = step_key m mask in
      (
        host_mask_map _ m,
        rw (insert_fuel, leaf, e, ended),
        insert_below cs m mask (take_next m mask).1 v map out k w leaf (rw (path_step m mask, leaf))
            e h.1 i,
      )

  -- With fuel for the rest of the mask, an insertion into a well-formed trie is done.
  pub insert_fuel-Inserts :
      (fuel : ℕ) (map : HostMaskMap T) (mask : HostMask) (v : T)
      → IsWellFormed map
      → weight (matcher_of map) mask ≤ fuel
      → Inserts map mask v (insert_fuel fuel map mask v)
  unfolding insert_fuel IsWellFormed
  insert_fuel-Inserts zero map mask v w h = absurd (omega (arith, weight-pos (matcher_of map) mask))
  insert_fuel-Inserts (suc fuel) (host_mask_map cs m) mask v w h =
      elim (Bool-cases (is_leaf m (step_key m mask))) [
        | inl leaf ↦ (host_mask_map _ m, rw (insert_fuel, leaf), insert_leaf cs m mask v w leaf)
        | inr leaf ↦
            insert_level fuel cs m mask v (node_or_new m (step_key m mask) cs) w leaf
              (node_or_new-IsNodeOf cs m (step_key m mask) w leaf) refl
              λ map w' same.
                insert_fuel-Inserts fuel map (take_next m mask).1 v w'
                  (rw same (omega (arith, weight_step m mask leaf)))
      ]

  -- `insert` on a well-formed trie reaches a value and not the `unreachable!`.
  pub insert_done :
      (map : HostMaskMap T) (mask : HostMask) (v : T)
      → IsWellFormed map
      → insert_fuel (weight (matcher_of map) mask) map mask v ≡ done (insert map mask v)
  unfolding insert
  insert_done map mask v w =
      let (out, e, _) =
        insert_fuel-Inserts (weight (matcher_of map) mask) map mask v w (omega arith) in
      rw e

  pub insert-IsInserted :
      (map : HostMaskMap T) (mask : HostMask) (v : T)
      → IsWellFormed map
      → IsInserted map mask v (insert map mask v)
  unfolding insert
  insert-IsInserted map mask v w =
      let (out, e, i) =
        insert_fuel-Inserts (weight (matcher_of map) mask) map mask v w (omega arith) in
      rw e i

  pub insert-IsWellFormed :
      (map : HostMaskMap T) (mask : HostMask) (v : T)
      → IsWellFormed map
      → IsWellFormed (insert map mask v)
  insert-IsWellFormed map mask v w = (insert-IsInserted map mask v w).well_formed

  pub matcher_of-insert :
      (map : HostMaskMap T) (mask : HostMask) (v : T)
      → IsWellFormed map
      → matcher_of (insert map mask v) ≡ matcher_of map
  matcher_of-insert map mask v w = (insert-IsInserted map mask v w).same_matcher

  -- After an insertion the path of the mask holds the value, and every other path what it held.
  pub stored-insert :
      (map : HostMaskMap T) (mask : HostMask) (v : T) (q : List Key)
      → IsWellFormed map
      → stored (insert map mask v) q
        ≡ (if path_beq (path (matcher_of map) mask) q then some v else stored map q)
  stored-insert map mask v q w = (insert-IsInserted map mask v w).stores q
