-- ===== src/HostMaskMap/Printing.antt =====
-- The masks of src/host_mask.rs that the parser accepts have each a path of their own in the
-- trie, and the trie's iteration writes the mask as `Display` does.
use titanirc.Base.{
  ℕ, ◌≡◌, refl, ap, sym, ◌∙◌, true, some, List, [], ◌∷◌, ◌++◌, arith, nat_beq, nat_beq_iff, Text,
  Has, Bool-cases, inl, inr,
}
use mathlib.Core.List.{append_assoc, append-nil}
use titanirc.HostMask.{HostMask, to_string}
use titanirc.HostMask.RoundTrip.{star_last, is_section, IsValid}
use titanirc.HostMaskMap.{
  Key, HostMaskMap, Matcher, nick, username, host, next, splitter, iter, insert,
}
use titanirc.HostMaskMap.Paths.{section_keys, path, path_beq_iff}
use titanirc.HostMaskMap.Insertion.{stored-insert}
use titanirc.HostMaskMap.Iteration.{render, Has-iter}
use titanirc.HostMaskMap.Globs.{IsRoot, insert-IsRoot}

star_last-tail : (c : ℕ) (s : Text) → star_last (c ∷ s) ≡ true → star_last s ≡ true
star_last-tail c [] h = refl
star_last-tail c (d ∷ s) h = ground arith

star_last-star : (c : ℕ) (s : Text) → star_last (c ∷ s) ≡ true → nat_beq c b'*' ≡ true → s ≡ []
star_last-star c [] h e = refl
star_last-star c (d ∷ s) h e = ground arith

-- Two sections with the same keys in front are the same section.
section_keys_inj :
    (a b : Text) (p q : List Key)
    → star_last a ≡ true
    → star_last b ≡ true
    → section_keys a ++ p ≡ section_keys b ++ q
    → (a ≡ b) × (p ≡ q)
section_keys_inj [] [] p q ha hb e = ground arith
section_keys_inj [] (d ∷ b) p q ha hb e = ground arith
section_keys_inj (c ∷ a) [] p q ha hb e = ground arith
section_keys_inj (c ∷ a) (d ∷ b) p q ha hb e = ground (
  arith,
  star_last-star c a ha,
  star_last-star d b hb,
  section_keys_inj a b p q (star_last-tail c a ha) (star_last-tail d b hb),
)

star_last_of : (v : Text) → is_section v ≡ true → star_last v ≡ true
star_last_of v h = ground arith

-- Valid masks with the same path are the same mask.
pub path_inj : (a b : HostMask) → IsValid a → IsValid b → path nick a ≡ path nick b → a ≡ b
path_inj a b va vb e =
    let (n, rest) =
      section_keys_inj a.nick b.nick _ _ (star_last_of a.nick va.nick_section)
        (star_last_of b.nick vb.nick_section) e in
    let (u, rest') =
      section_keys_inj a.username b.username _ _ (star_last_of a.username va.username_section)
        (star_last_of b.username vb.username_section) rest in
    let (h, _) =
      section_keys_inj a.host b.host [] [] (star_last_of a.host va.host_section)
        (star_last_of b.host vb.host_section) (append-nil _ ∙ (rest' ∙ sym (append-nil _))) in
    ground arith

-- A section is written out, with its separator behind it.
render-section :
    (v s : Text) (m n : Matcher) (p : List Key)
    → star_last v ≡ true
    → next m ≡ some n
    → render s m (section_keys v ++ p) ≡ render (s ++ (v ++ splitter m)) n p
render-section [] s m n p h e = rw e
render-section (c ∷ v) s m n p h e = elim (Bool-cases (nat_beq c b'*')) [
  | inl star ↦ rw (star, star_last-star c v h star, (nat_beq_iff c b'*').0 star, e)
  | inr other ↦ rw other (
      render-section v (s ++ c ∷ []) m n p (star_last-tail c v h) e
      ∙ ap (λ (t : Text). render t n p) (append_assoc s (c ∷ []) (v ++ splitter m)))
]

render-host : (v s : Text) → star_last v ≡ true → render s host (section_keys v) ≡ s ++ v
render-host [] s h = refl
render-host (c ∷ v) s h = elim (Bool-cases (nat_beq c b'*')) [
  | inl star ↦ rw (star, star_last-star c v h star, (nat_beq_iff c b'*').0 star)
  | inr other ↦
      rw other (render-host v (s ++ c ∷ []) (star_last-tail c v h) ∙ append_assoc s (c ∷ []) v)
]

-- The text of a valid mask's path is the mask as `Display` writes it.
pub render-path : (m : HostMask) → IsValid m → render [] nick (path nick m) ≡ to_string m
unfolding to_string
render-path m v =
    render-section m.nick [] nick username (section_keys m.username ++ section_keys m.host)
      (star_last_of m.nick v.nick_section) refl
    ∙ render-section m.username (m.nick ++ splitter nick) username host (section_keys m.host)
        (star_last_of m.username v.username_section) refl
    ∙ render-host m.host ((m.nick ++ splitter nick) ++ (m.username ++ splitter username))
        (star_last_of m.host v.host_section)
    ∙ simp append_assoc

module _ {T : Type 0} where
  -- A mask that was inserted is listed with its value, under the text that `Display` writes.
  pub iter-insert :
      (map : HostMaskMap T) (mask : HostMask) (v : T)
      → IsRoot map
      → IsValid mask
      → Has (to_string mask, v) (iter (insert map mask v))
  iter-insert map mask v r valid =
      let i = insert-IsRoot map mask v r in
      (Has-iter (insert map mask v) (to_string mask) v i.well_formed).1 (
        path nick mask,
        rw (stored-insert map mask v (path nick mask) r.well_formed, r.at_nick)
            (ground (arith, path_beq_iff (path nick mask) (path nick mask))),
        rw (i.at_nick, render-path mask valid),
      )
