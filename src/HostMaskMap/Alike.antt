-- ===== src/HostMaskMap/Alike.antt =====
-- What two tries of src/host_mask.rs that store something under the same paths find.
use titanirc.Base.{◌≡◌, inl, inr, is_some, List, Has, Option-cases}
use titanirc.HostMask.{HostMask}
use titanirc.HostMaskMap.{HostMaskMap, Key, get}
use titanirc.HostMaskMap.Stored.{stored}
use titanirc.HostMaskMap.Matching.{Has-get}
use titanirc.HostMaskMap.Globs.{IsRoot}

module _ {T : Type 0} where
  -- Two maps that store something under the same paths find something for the same masks.
  pub found_alike :
      (a b : HostMaskMap T) (mask : HostMask) (v : T)
      → IsRoot a
      → IsRoot b
      → ((q : List Key) → is_some (stored a q) ≡ is_some (stored b q))
      → Has v (get a mask)
      → (u : T) × Has u (get b mask)
  found_alike a b mask v ra rb same h =
      let (p, s, acc) = (Has-get a mask v ra.well_formed).0 h in
      elim (Option-cases (stored b p)) [
        | inl e ↦ absurd (cc (same p, s, e))
        | inr (u, e) ↦
            (u, (Has-get b mask u rb.well_formed).1 (p, e, rw (rb.at_nick, ← ra.at_nick) acc))
      ]
