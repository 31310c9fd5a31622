-- ===== src/HostMaskMap/Globs.antt =====
-- A mask of src/host_mask.rs read as three globs, and `HostMaskMap` as a list of globs.
use titanirc.Base.{
  ◌≡◌, refl, ap, sym, ◌∙◌, ◌⊎◌, inl, inr, Bool, true, false, ◌&&◌, List, [], ◌∷◌, ◌++◌, arith,
  if◌then◌else◌, nat_beq, nat_beq_iff, Text, Has, Bool-cases,
}
use titanirc.HostMask.{HostMask}
use titanirc.HostMaskMap.{
  HostMaskMap, nick, username, host, matcher_of, get, insert, new, from_iter, insert_all,
}
use titanirc.HostMaskMap.Paths.{section_keys, path, path_beq, path_beq_iff}
use titanirc.HostMaskMap.WellFormed.{IsWellFormed, new-IsWellFormed}
use titanirc.HostMaskMap.Stored.{stored-empty}
use titanirc.HostMaskMap.Insertion.{stored-insert, insert-IsWellFormed, matcher_of-insert}
use titanirc.HostMaskMap.Matching.{accepts, Has-get}

-- A section of a mask against a section of a name: `*` stands for any rest.
abbrev pub section_matches : Text → Text → Bool
section_matches [] [] = true
section_matches [] (d ∷ s) = false
section_matches (c ∷ p) [] = nat_beq c b'*'
section_matches (c ∷ p) (d ∷ s) =
    if nat_beq c b'*' then true else nat_beq c d && section_matches p s

abbrev pub matches : HostMask → HostMask → Bool
matches pattern mask =
    section_matches pattern.nick mask.nick
    && (section_matches pattern.username mask.username && section_matches pattern.host mask.host)

accepts_host :
    (p n u h : Text)
    → accepts host (section_keys p) (record { nick = n; username = u; host = h })
      ≡ section_matches p h
accepts_host [] n u [] = refl
accepts_host [] n u (d ∷ h) = refl
accepts_host (c ∷ p) n u [] = ground (arith, nat_beq_iff c b'*')
accepts_host (c ∷ p) n u (d ∷ h) = ground (arith, accepts_host p n u h)

accepts_username :
    (p q n u h : Text)
    → accepts username
        (section_keys p ++ section_keys q)
        (record { nick = n; username = u; host = h })
      ≡ (section_matches p u && section_matches q h)
accepts_username [] q n [] h = accepts_host q n [] h
accepts_username [] q n (d ∷ u) h = refl
accepts_username (c ∷ p) q n [] h = ground (arith, accepts_host q n [] h)
accepts_username (c ∷ p) q n (d ∷ u) h =
    ground (arith, accepts_host q n u h, accepts_username p q n u h)

accepts_nick :
    (p q r n u h : Text)
    → accepts nick
        (section_keys p ++ (section_keys q ++ section_keys r))
        (record { nick = n; username = u; host = h })
      ≡ (section_matches p n && (section_matches q u && section_matches r h))
accepts_nick [] q r [] u h = accepts_username q r [] u h
accepts_nick [] q r (d ∷ n) u h = refl
accepts_nick (c ∷ p) q r [] u h = ground (arith, accepts_username q r [] u h)
accepts_nick (c ∷ p) q r (d ∷ n) u h =
    ground (arith, accepts_username q r n u h, accepts_nick p q r n u h)

-- The path of a mask accepts exactly what its globs match.
pub accepts-path :
    (pattern mask : HostMask) → accepts nick (path nick pattern) mask ≡ matches pattern mask
accepts-path pattern mask =
    accepts_nick pattern.nick pattern.username pattern.host mask.nick mask.username mask.host

module _ {T : Type 0} where
  -- A trie from the root.
  pub record IsRoot (map : HostMaskMap T) : Type 0 where
    pub well_formed : IsWellFormed map
    pub at_nick : matcher_of map ≡ nick

  pub insert-IsRoot :
      (map : HostMaskMap T) (mask : HostMask) (v : T) → IsRoot map → IsRoot (insert map mask v)
  insert-IsRoot map mask v r = record {
    well_formed = insert-IsWellFormed map mask v r.well_formed;
    at_nick = matcher_of-insert map mask v r.well_formed ∙ r.at_nick;
  }

  -- After an insertion, a lookup that the mask matches returns the value.
  pub get-insert :
      (map : HostMaskMap T) (pattern mask : HostMask) (v : T)
      → IsRoot map
      → matches pattern mask ≡ true
      → Has v (get (insert map pattern v) mask)
  get-insert map pattern mask v r e =
      let w = (insert-IsRoot map pattern v r).well_formed in
      let at = (insert-IsRoot map pattern v r).at_nick in
      (Has-get (insert map pattern v) mask v w).1 (
        path nick pattern,
        rw (stored-insert map pattern v (path nick pattern) r.well_formed, r.at_nick)
            (ground (arith, path_beq_iff (path nick pattern) (path nick pattern))),
        rw (at, accepts-path pattern mask) e,
      )

  -- What a lookup returns after an insertion: the value, if the mask matches, and else what it
  -- returned before.
  pub get-insert_inv :
      (map : HostMaskMap T) (pattern mask : HostMask) (v u : T)
      → IsRoot map
      → Has u (get (insert map pattern v) mask)
      → ((u ≡ v) × (matches pattern mask ≡ true)) ⊎ Has u (get map mask)
  get-insert_inv map pattern mask v u r h =
      let w = (insert-IsRoot map pattern v r).well_formed in
      let at = (insert-IsRoot map pattern v r).at_nick in
      let (p, s, a) = (Has-get (insert map pattern v) mask u w).0 h in
      let s' = rw (stored-insert map pattern v p r.well_formed, r.at_nick) at s in
      let a' = rw at at a in
      elim (Bool-cases (path_beq (path nick pattern) p)) [
        | inl same ↦ inl (
          ground arith,
          sym (accepts-path pattern mask) ∙ rw ((path_beq_iff (path nick pattern) p).0 same) a',
        )
        | inr other ↦
            inr ((Has-get map mask u r.well_formed).1 (p, rw other at s', rw r.at_nick a'))
      ]

  pub new-IsRoot : IsRoot new
  new-IsRoot = record { well_formed = new-IsWellFormed T; at_nick = refl }

  pub insert_all-IsRoot :
      (xs : List (HostMask × T)) (map : HostMaskMap T) → IsRoot map → IsRoot (insert_all xs map)
  unfolding insert_all
  insert_all-IsRoot [] map r = r
  insert_all-IsRoot ((k, v) ∷ xs) map r =
      insert_all-IsRoot xs (insert map k v) (insert-IsRoot map k v r)

  pub from_iter-IsRoot : (xs : List (HostMask × T)) → IsRoot (from_iter xs)
  unfolding from_iter
  from_iter-IsRoot xs = insert_all-IsRoot xs new new-IsRoot

  insert_all_inv :
      (xs : List (HostMask × T)) (map : HostMaskMap T) (mask : HostMask) (v : T)
      → IsRoot map
      → Has v (get (insert_all xs map) mask)
      → ((pattern : HostMask) × Has (pattern, v) xs × (matches pattern mask ≡ true))
        ⊎ Has v (get map mask)
  unfolding insert_all
  insert_all_inv [] map mask v r h = inr h
  insert_all_inv ((k, u) ∷ xs) map mask v r h =
      elim (insert_all_inv xs (insert map k u) mask v (insert-IsRoot map k u r) h) [
        | inl (pattern, m, e) ↦ inl (pattern, inr m, e)
        | inr earlier ↦ elim (get-insert_inv map k mask u v r earlier) [
          | inl (same, e) ↦ inl (k, inl (ap (λ (t : T). (k, t)) same), e)
          | inr before ↦ inr before
        ]
      ]

  get-new : (mask : HostMask) (v : T) → ¬ Has v (get new mask)
  get-new mask v h =
      let (p, s, a) = (Has-get new mask v (new-IsWellFormed T)).0 h in cc (stored-empty nick p, s)

  -- A lookup in a collected map returns values of matching masks only.
  pub get-from_iter_sound :
      (xs : List (HostMask × T)) (mask : HostMask) (v : T)
      → Has v (get (from_iter xs) mask)
      → (pattern : HostMask) × Has (pattern, v) xs × (matches pattern mask ≡ true)
  unfolding from_iter
  get-from_iter_sound xs mask v h = elim (insert_all_inv xs new mask v new-IsRoot h) [
    | inl found ↦ found
    | inr before ↦ absurd (get-new mask v before)
  ]
