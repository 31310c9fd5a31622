-- ===== src/HostMaskMap/Deletion.antt =====
-- `HostMaskMap::remove` of src/host_mask.rs on the maps that start at the nick.
use titanirc.Base.{
  ◌≡◌, ◌∙◌, inl, inr, ◌↔◌, true, false, none, some, is_some, List, arith, if◌then◌else◌, Has,
  Bool-cases,
}
use titanirc.HostMask.{HostMask}
use titanirc.HostMaskMap.{Key, HostMaskMap, nick, get, remove}
use titanirc.HostMaskMap.Paths.{path, path_beq}
use titanirc.HostMaskMap.Stored.{stored}
use titanirc.HostMaskMap.Matching.{accepts, Has-get}
use titanirc.HostMaskMap.Removal.{remove-IsRemoved}
use titanirc.HostMaskMap.Globs.{IsRoot}

module _ {T : Type 0} where
  pub remove-IsRoot :
      (map : HostMaskMap T) (mask : HostMask) → IsRoot map → IsRoot (remove map mask).0
  remove-IsRoot map mask r =
      let g = remove-IsRemoved map r.well_formed mask in
      record { well_formed = g.well_formed; at_nick = g.same_matcher ∙ r.at_nick }

  -- After a removal the path of the mask holds nothing, and every other path what it held; the
  -- answer tells whether the path held a value.
  pub stored-remove :
      (map : HostMaskMap T) (mask : HostMask) (q : List Key)
      → IsRoot map
      → (stored (remove map mask).0 q
          ≡ (if path_beq (path nick mask) q then none else stored map q))
        × ((remove map mask).1 ≡ is_some (stored map (path nick mask)))
  stored-remove map mask q r =
      let g = remove-IsRemoved map r.well_formed mask in
      (rw (g.stores q, r.at_nick), rw (g.found, r.at_nick))

  -- A lookup after a removal returns what is stored at a path that accepts the mask and is not
  -- the removed one.
  pub get-remove :
      (map : HostMaskMap T) (pattern mask : HostMask) (v : T)
      → IsRoot map
      → Has v (get (remove map pattern).0 mask) ↔ (
          (p : List Key) × (path_beq (path nick pattern) p ≡ false)
          × (stored map p ≡ some v)
          × (accepts nick p mask ≡ true))
  get-remove map pattern mask v r =
      let r' = remove-IsRoot map pattern r in
      let found = Has-get (remove map pattern).0 mask v r'.well_formed in
      (
        λ h.
            let (p, s, a) = found.0 h in
            let (s', _) = stored-remove map pattern p r in
            elim (Bool-cases (path_beq (path nick pattern) p)) [
              | inl same ↦ absurd (cc (s, rw same at s'))
              | inr other ↦ (p, other, ground (arith, s, s', other), rw r'.at_nick at a)
            ],
        λ (p, other, s, a).
            found.1 (p, rw ((stored-remove map pattern p r).0, other) s, rw r'.at_nick a),
      )
