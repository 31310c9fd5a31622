-- ===== src/Server/Bans/Readable.antt =====
-- The bans of src/server.rs are stored under their own masks, which can be read back.
use mathlib.Core.Option
use titanirc.Base.{sym, refl, ap, ◌∙◌, ◌≡◌, inl, inr, List, [], ◌∷◌, map, Bool-cases, All}
use titanirc.HostMask.{HostMask}
use titanirc.HostMask.RoundTrip.{IsValid}
use titanirc.HostMaskMap
use titanirc.HostMaskMap.{HostMaskMap, nick, from_iter, insert_all, new}
use titanirc.HostMaskMap.Paths.{path, path_beq, path_beq_iff}
use titanirc.HostMaskMap.Stored.{stored-empty}
use titanirc.HostMaskMap.Insertion.{stored-insert}
use titanirc.HostMaskMap.Globs.{IsRoot, insert-IsRoot, new-IsRoot}
use titanirc.HostMaskMap.Deletion.{remove-IsRoot, stored-remove}
use titanirc.Server.Responses.{ban_from_entry, ServerBan, ServerListBanEntry}
use titanirc.Server.Bans.{ban_entry, remove_masks}
use titanirc.Server.Bans.Expiry.{StoresValid}

pub insert-StoresValid :
    (map : HostMaskMap ServerBan) (mask : HostMask) (v : ServerBan)
    → IsRoot map
    → IsValid mask
    → v.mask ≡ mask
    → StoresValid map
    → StoresValid (HostMaskMap.insert map mask v)
insert-StoresValid map mask v root valid own s = record {
  mask_of = λ q ban e.
      let e' = rw (stored-insert map mask v q root.well_formed, root.at_nick) at e in
      elim (Bool-cases (path_beq (path nick mask) q)) [
        | inl same ↦
            let kept : ban.mask ≡ mask =
              ap (λ (b : ServerBan). b.mask) (sym (Option.some_inj.0 (rw same at e'))) ∙ own in
            rw kept (valid, sym ((path_beq_iff (path nick mask) q).0 same))
        | inr other ↦ s.mask_of q ban (rw other at e')
      ];
}

pub remove-StoresValid :
    (map : HostMaskMap ServerBan) (mask : HostMask)
    → IsRoot map
    → StoresValid map
    → StoresValid (HostMaskMap.remove map mask).0
remove-StoresValid map mask root s = record {
  mask_of = λ q ban e.
      let e' = rw ((stored-remove map mask q root).0) at e in
      elim (Bool-cases (path_beq (path nick mask) q)) [
        | inl same ↦ absurd (cc (rw same at e'))
        | inr other ↦ s.mask_of q ban (rw other at e')
      ];
}

pub remove_masks-StoresValid :
    (ms : List HostMask) (map : HostMaskMap ServerBan)
    → IsRoot map
    → StoresValid map
    → StoresValid (remove_masks ms map)
remove_masks-StoresValid [] map root s = s
remove_masks-StoresValid (m ∷ ms) map root s =
    remove_masks-StoresValid ms (HostMaskMap.remove map m).0 (remove-IsRoot map m root)
      (remove-StoresValid map m root s)

insert_all-StoresValid :
    (entries : List ServerListBanEntry) (out : HostMaskMap ServerBan)
    → All (λ e. IsValid e.mask) entries
    → IsRoot out
    → StoresValid out
    → StoresValid (insert_all (map ban_entry entries) out)
unfolding insert_all ban_from_entry
insert_all-StoresValid [] out valid root s = s
insert_all-StoresValid (e ∷ entries) out valid root s =
    let v = (ban_entry e).1 in
    insert_all-StoresValid entries (HostMaskMap.insert out e.mask v) valid.1
      (insert-IsRoot out e.mask v root) (insert-StoresValid out e.mask v root valid.0 refl s)

pub new-StoresValid : StoresValid new
new-StoresValid = record { mask_of = λ q ban e. absurd (cc (e, stored-empty nick q)) }

pub loaded-StoresValid :
    (entries : List ServerListBanEntry)
    → All (λ e. IsValid e.mask) entries
    → StoresValid (from_iter (map ban_entry entries))
unfolding from_iter
loaded-StoresValid entries valid =
    insert_all-StoresValid entries new valid new-IsRoot new-StoresValid
