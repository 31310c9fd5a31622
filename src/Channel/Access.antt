-- ===== src/Channel/Access.antt =====
-- Who may do what in a channel of src/channel.rs, by the masks stored for it.
use titanirc.Base.{
  ◌≤◌, ◌≡◌, ◌↔◌, ◌⊎◌, inl, inr, false, List, [], ◌∷◌, arith, Option-cases, unwrap_or, Has, All,
}
use titanirc.HostMask.{HostMask}
use titanirc.HostMaskMap.{get}
use titanirc.Permission.{Permission, ban, normal, max, can_join}
use titanirc.Permission.Laws.{rank, max-eq-some, max-eq-none, can_join_iff, rank_inj}
use titanirc.Channel.{Channel, get_user_permissions}

abbrev level : List Permission → Permission
level ps = unwrap_or (max ps) normal

All-ban : (ps : List Permission) → All (λ q. rank q ≤ rank ban) ps → All (λ q. q ≡ ban) ps
All-ban [] h = tt
All-ban (q ∷ ps) h = (rank_inj q ban (omega arith), All-ban ps h.1)

All-Has :
    (P : Permission → Type 0) (p : Permission) (ps : List Permission) → All P ps → Has p ps → P p
All-Has P p [] a h = elim h [ ]
All-Has P p (q ∷ ps) a (inl e) = rw e a.0
All-Has P p (q ∷ ps) a (inr h) = All-Has P p ps a.1 h

pub level_cases :
    (ps : List Permission)
    → ((ps ≡ []) × (level ps ≡ normal))
      ⊎ (Has (level ps) ps × All (λ q. rank q ≤ rank (level ps)) ps)
level_cases ps = elim (Option-cases (max ps)) [
  | inl e ↦ inl (max-eq-none ps e, rw e)
  | inr (p, e) ↦ inr (rw e (max-eq-some ps p e))
]

pub Has-level : (p : Permission) (ps : List Permission) → Has p ps → rank p ≤ rank (level ps)
Has-level p ps h = elim (level_cases ps) [
  | inl (empty, _) ↦ absurd (rw empty at h)
  | inr (_, most) ↦ All-Has (λ q. rank q ≤ rank (level ps)) p ps most h
]

-- The highest permission depends on which ones there are, and not on their order.
pub level-alike :
    (ps qs : List Permission) → ((p : Permission) → Has p ps ↔ Has p qs) → level ps ≡ level qs
level-alike ps qs same = elim (level_cases ps) [
  | inl (e, n) ↦ elim (level_cases qs) [
    | inl (f, m) ↦ cc (n, m)
    | inr (h, most) ↦ absurd (rw e at ((same (level qs)).1 h))
  ]
  | inr (h, most) ↦ elim (level_cases qs) [
    | inl (f, m) ↦ absurd (rw f at ((same (level ps)).0 h))
    | inr (k, above) ↦ rank_inj (level ps) (level qs) (
        let a = Has-level (level ps) qs ((same (level ps)).0 h) in
        let b = Has-level (level qs) ps ((same (level qs)).1 k) in omega arith)
  ]
]

level_ban : (ps : List Permission) → level ps ≡ ban → Has ban ps × All (λ q. q ≡ ban) ps
level_ban ps e = elim (level_cases ps) [
  | inl (empty, n) ↦ absurd (cc (e, n))
  | inr (h, most) ↦ (rw e at h, All-ban ps (rw e at most))
]

ban_level : (ps : List Permission) → Has ban ps → All (λ q. q ≡ ban) ps → level ps ≡ ban
ban_level ps h only = elim (level_cases ps) [
  | inl (empty, n) ↦ absurd (rw empty at h)
  | inr (m, most) ↦ All-Has (λ q. q ≡ ban) (level ps) ps only m
]

-- A mask is kept out exactly when a stored mask that matches it is banned and no stored mask
-- that matches it has any other permission.
pub can_join-false_iff :
    (c : Channel) (mask : HostMask)
    → (can_join (get_user_permissions c mask) ≡ false)
      ↔ (Has ban (get c.permissions mask) × All (λ q. q ≡ ban) (get c.permissions mask))
unfolding get_user_permissions
can_join-false_iff c mask =
    let ps = get c.permissions mask in
    (
      λ e. level_ban ps ((can_join_iff (level ps)).0.0 e),
      λ (h, only). (can_join_iff (level ps)).0.1 (ban_level ps h only),
    )

-- A user's permission ranks as high as that of any stored mask that matches, and is the
-- permission of one of them, or `Normal` where none matches.
pub get_user_permissions_most :
    (c : Channel) (mask : HostMask)
    → All (λ p. rank p ≤ rank (get_user_permissions c mask)) (get c.permissions mask)
      × (((get c.permissions mask ≡ []) × (get_user_permissions c mask ≡ normal))
          ⊎ Has (get_user_permissions c mask) (get c.permissions mask))
unfolding get_user_permissions
get_user_permissions_most c mask =
    let ps = get c.permissions mask in
    (
      elim (level_cases ps) [ inl (empty, _) ↦ rw empty tt | inr (h, most) ↦ most ],
      elim (level_cases ps) [ inl none_match ↦ inl none_match | inr (h, most) ↦ inr h ],
    )

pub get_user_permissions_bound :
    (c : Channel) (mask : HostMask) (p : Permission)
    → Has p (get c.permissions mask)
    → rank p ≤ rank (get_user_permissions c mask)
get_user_permissions_bound c mask p h =
    All-Has (λ q. rank q ≤ rank (get_user_permissions c mask)) p (get c.permissions mask)
      (get_user_permissions_most c mask).0 h
