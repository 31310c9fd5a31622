-- ===== src/HostMaskMap/WellFormed.antt =====
-- The shape that the tries of src/host_mask.rs keep: values exactly at the end of the host
-- section, below each key a map for the section that follows, and no key twice.
use titanirc.Base.{◌≡◌, refl, true, false, none, some, arith, if◌then◌else◌}
use titanirc.HostMaskMap.{
  Key, key_beq, Matcher, HostMaskMap, host_mask_map, Node, match_value, inner, Children, nil, entry,
  matcher_of, child, put_child, remove_child, is_leaf, child_matcher, new,
}
use titanirc.HostMaskMap.Paths.{key_beq_iff}

unfoldable mutual
  pub IsWellFormed : {T : Type 0} → HostMaskMap T → Type 0
  IsWellFormed (host_mask_map cs m) = AreWellFormed m cs

  pub IsNodeOf : {T : Type 0} → Matcher → Key → Node T → Type 0
  IsNodeOf m k (match_value v) = is_leaf m k ≡ true
  IsNodeOf m k (inner map) =
      (is_leaf m k ≡ false) × (matcher_of map ≡ child_matcher m k) × IsWellFormed map

  pub AreWellFormed : {T : Type 0} → Matcher → Children T → Type 0
  AreWellFormed m nil = Unit
  AreWellFormed m (entry k n cs) = IsNodeOf m k n × (child k cs ≡ none) × AreWellFormed m cs

pub new-IsWellFormed : (T : Type 0) → IsWellFormed {T = T} new
unfolding IsWellFormed
new-IsWellFormed T = tt

module _ {T : Type 0} where
  pub child-put_child :
      (j k : Key) (n : Node T) (cs : Children T)
      → child k (put_child j n cs) ≡ (if key_beq j k then some n else child k cs)
  child-put_child j k n nil = refl
  child-put_child j k n (entry i o cs) =
      ground (arith, key_beq_iff j k, key_beq_iff i k, key_beq_iff i j, child-put_child j k n cs)

  pub child-remove_child :
      (j k : Key) (cs : Children T)
      → child k (remove_child j cs) ≡ (if key_beq j k then none else child k cs)
  child-remove_child j k nil = ground arith
  child-remove_child j k (entry i o cs) =
      ground (arith, key_beq_iff j k, key_beq_iff i k, key_beq_iff i j, child-remove_child j k cs)

  pub child-IsNodeOf :
      (m : Matcher) (k : Key) (cs : Children T) (n : Node T)
      → AreWellFormed m cs
      → child k cs ≡ some n
      → IsNodeOf m k n
  unfolding AreWellFormed
  child-IsNodeOf m k nil n w e = cc
  child-IsNodeOf m k (entry j o cs) n w e =
      ground (arith, key_beq_iff j k, child-IsNodeOf m k cs n w.2)

  pub put_child-AreWellFormed :
      (m : Matcher) (k : Key) (n : Node T) (cs : Children T)
      → AreWellFormed m cs
      → IsNodeOf m k n
      → AreWellFormed m (put_child k n cs)
  unfolding AreWellFormed
  put_child-AreWellFormed m k n nil w h = (h, refl, tt)
  put_child-AreWellFormed m k n (entry j o cs) w h = ground (
    arith,
    put_child-AreWellFormed m k n cs w.2 h,
    child-put_child k j n cs,
    key_beq_iff k j,
    key_beq_iff j k,
  )

  pub remove_child-AreWellFormed :
      (m : Matcher) (k : Key) (cs : Children T)
      → AreWellFormed m cs
      → AreWellFormed m (remove_child k cs)
  unfolding AreWellFormed
  remove_child-AreWellFormed m k nil w = tt
  remove_child-AreWellFormed m k (entry j o cs) w =
      ground (arith, remove_child-AreWellFormed m k cs w.2, child-remove_child k j cs)
