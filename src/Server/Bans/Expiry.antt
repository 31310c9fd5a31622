-- ===== src/Server/Bans/Expiry.antt =====
-- The expiry of the server-wide bans of src/server.rs.
use titanirc.Base.{
  arith, ◌≤◌, ◌<◌, leb, Option-cases, ◌≡◌, refl, ap, sym, ◌∙◌, ◌⊎◌, inl, inr, Bool, true, false,
  ◌||◌, Option, none, some, List, [], ◌∷◌, if◌then◌else◌, Has, Bool-cases, Text,
}
use titanirc.HostMask
use titanirc.HostMask.{HostMask, to_string, try_from}
use titanirc.HostMask.RoundTrip.{IsValid, try_from-to_string}
use titanirc.HostMaskMap.{Key, HostMaskMap, Matcher, nick, matcher_of, iter, remove}
use titanirc.HostMaskMap.Paths.{path, path_beq, path_beq_iff}
use titanirc.HostMaskMap.Stored.{stored}
use titanirc.HostMaskMap.Globs.{IsRoot}
use titanirc.HostMaskMap.Deletion.{stored-remove, remove-IsRoot}
use titanirc.HostMaskMap.Iteration.{render, Has-iter}
use titanirc.HostMaskMap.Printing.{render-path}
use titanirc.Connection.{DateTime}
use titanirc.Server.{Server}
use titanirc.Server.Responses.{ServerBan}
use titanirc.Server.Bans.{is_expired, push_mask, expired_masks, remove_masks, remove_expired_bans}

-- Whether one of the masks has the path.
abbrev any_path : List HostMask → List Key → Bool
any_path [] q = false
any_path (m ∷ ms) q = path_beq (path nick m) q || any_path ms q

pub remove_masks-IsRoot :
    (ms : List HostMask) (map : HostMaskMap ServerBan) → IsRoot map → IsRoot (remove_masks ms map)
remove_masks-IsRoot [] map r = r
remove_masks-IsRoot (m ∷ ms) map r = remove_masks-IsRoot ms (remove map m).0 (remove-IsRoot map m r)

or-true : (b : Bool) → (b || true) ≡ true
or-true true = refl
or-true false = refl

if_or :
    (a b : Bool) (x : Option ServerBan)
    → (if b then none else (if a then none else x)) ≡ (if a || b then none else x)
if_or true true x = refl
if_or true false x = refl
if_or false true x = refl
if_or false false x = refl

stored-remove_masks :
    (ms : List HostMask) (map : HostMaskMap ServerBan) (q : List Key)
    → IsRoot map
    → stored (remove_masks ms map) q ≡ (if any_path ms q then none else stored map q)
stored-remove_masks [] map q r = refl
stored-remove_masks (m ∷ ms) map q r =
    stored-remove_masks ms (remove map m).0 q (remove-IsRoot map m r)
    ∙ rw ((stored-remove map m q r).0)
        (if_or (path_beq (path nick m) q) (any_path ms q) (stored map q))

pushed :
    (p : HostMask.Parsed) (m : HostMask) (rest : List HostMask)
    → Has m rest
    → Has m (push_mask p rest)
pushed (HostMask.err e) m rest h = h
pushed (HostMask.ok n) m rest h = inr h

pushed_inv :
    (p : HostMask.Parsed) (m : HostMask) (rest : List HostMask)
    → Has m (push_mask p rest)
    → (p ≡ HostMask.ok m) ⊎ Has m rest
pushed_inv (HostMask.err e) m rest h = inr h
pushed_inv (HostMask.ok n) m rest (inl e) = inl (ap (λ (x : HostMask). HostMask.ok x) (sym e))
pushed_inv (HostMask.ok n) m rest (inr h) = inr h

-- The masks of the first loop are those of the expired entries whose text can be read.
Has-expired_masks :
    (now : DateTime) (entries : List (Text × ServerBan)) (t : Text) (ban : ServerBan) (m : HostMask)
    → Has (t, ban) entries
    → is_expired now ban ≡ true
    → try_from t ≡ HostMask.ok m
    → Has m (expired_masks now entries)
Has-expired_masks now [] t ban m h e r = elim h [ ]
Has-expired_masks now ((u, other) ∷ rest) t ban m (inl same) e r =
    let e' = rw (ap (λ (x : Text × ServerBan). x.1) same) at e in
    let r' = rw (ap (λ (x : Text × ServerBan). x.0) same) at r in rw (e', r') (inl refl)
Has-expired_masks now ((u, other) ∷ rest) t ban m (inr h) e r =
    let later = Has-expired_masks now rest t ban m h e r in
    elim (Bool-cases (is_expired now other)) [
      | inl old ↦ rw old (pushed (try_from u) m (expired_masks now rest) later)
      | inr fresh ↦ rw fresh later
    ]

expired_masks_inv :
    (now : DateTime) (entries : List (Text × ServerBan)) (m : HostMask)
    → Has m (expired_masks now entries)
    → (t : Text) × (ban : ServerBan) × Has (t, ban) entries
      × (is_expired now ban ≡ true)
      × (try_from t ≡ HostMask.ok m)
expired_masks_inv now [] m h = elim h [ ]
expired_masks_inv now ((u, other) ∷ rest) m h = elim (Bool-cases (is_expired now other)) [
  | inl old ↦ elim (pushed_inv (try_from u) m (expired_masks now rest) (rw old at h)) [
    | inl r ↦ (u, other, inl refl, old, r)
    | inr h' ↦ let (t, ban, k, e, r) = expired_masks_inv now rest m h' in (t, ban, inr k, e, r)
  ]
  | inr fresh ↦
      let (t, ban, k, e, r) = expired_masks_inv now rest m (rw fresh at h) in (t, ban, inr k, e, r)
]

-- Whatever a map stores is stored under the path of its own mask, which is a readable one.
pub record StoresValid (map : HostMaskMap ServerBan) : Type 0 where
  pub mask_of :
      (q : List Key) (ban : ServerBan)
      → stored map q ≡ some ban
      → IsValid ban.mask × (q ≡ path nick ban.mask)

any_path-Has : (ms : List HostMask) (m : HostMask) → Has m ms → any_path ms (path nick m) ≡ true
any_path-Has [] m h = elim h [ ]
any_path-Has (n ∷ ms) m (inl e) = rw (e, (path_beq_iff (path nick n) (path nick n)).1 refl)
any_path-Has (n ∷ ms) m (inr h) =
    rw (any_path-Has ms m h) (or-true (path_beq (path nick n) (path nick m)))

any_path_inv :
    (ms : List HostMask) (q : List Key)
    → any_path ms q ≡ true
    → (m : HostMask) × Has m ms × (path nick m ≡ q)
any_path_inv [] q h = absurd (cc h)
any_path_inv (m ∷ ms) q h = elim (Bool-cases (path_beq (path nick m) q)) [
  | inl same ↦ (m, inl refl, (path_beq_iff (path nick m) q).0 same)
  | inr other ↦ let (n, k, e) = any_path_inv ms q (rw other at h) in (n, inr k, e)
]

expired_path :
    (now : DateTime) (map : HostMaskMap ServerBan) (mask : HostMask) (ban : ServerBan)
    → IsRoot map
    → IsValid mask
    → stored map (path nick mask) ≡ some ban
    → is_expired now ban ≡ true
    → any_path (expired_masks now (iter map)) (path nick mask) ≡ true
expired_path now map mask ban root valid s e = any_path-Has (expired_masks now (iter map)) mask (
    Has-expired_masks now (iter map) (to_string mask) ban mask
      ((Has-iter map (to_string mask) ban root.well_formed).1
        (path nick mask, s, rw root.at_nick (sym (render-path mask valid))))
      e (try_from-to_string mask valid))

fresh_path :
    (now : DateTime) (map : HostMaskMap ServerBan) (mask : HostMask) (ban : ServerBan)
    → IsRoot map
    → StoresValid map
    → stored map (path nick mask) ≡ some ban
    → any_path (expired_masks now (iter map)) (path nick mask) ≡ true
    → is_expired now ban ≡ true
fresh_path now map mask ban root readable s h =
    let (m, k, same) = any_path_inv (expired_masks now (iter map)) (path nick mask) h in
    let (t, old, listed, e, r) = expired_masks_inv now (iter map) m k in
    let (p, s', t') = (Has-iter map t old root.well_formed).0 listed in
    let n : HostMask = old.mask in
    let (valid, at) = readable.mask_of p old s' in
    let printed : t ≡ to_string n =
      t'
      ∙ (ap (λ (q : List Key). render [] (matcher_of map) q) at
          ∙ (ap (λ (w : Matcher). render [] w (path nick n)) root.at_nick ∙ render-path n valid)) in
    let parsed : HostMask.ok m ≡ HostMask.ok n =
      sym r ∙ (ap try_from printed ∙ try_from-to_string n valid) in
    let same_mask : m ≡ n = cc parsed in
    let same_path : p ≡ path nick mask =
      at ∙ (ap (λ (x : HostMask). path nick x) (sym same_mask) ∙ same) in
    let same_ban : old ≡ ban = cc (sym s' ∙ (ap (λ (q : List Key). stored map q) same_path ∙ s)) in
    ap (λ (b : ServerBan). is_expired now b) (sym same_ban) ∙ e

remove_expired_stored :
    (now : DateTime) (s : Server) (mask : HostMask) (ban : ServerBan)
    → IsRoot s.bans
    → StoresValid s.bans
    → IsValid mask
    → stored s.bans (path nick mask) ≡ some ban
    → stored (remove_expired_bans now s).0.bans (path nick mask)
      ≡ (if is_expired now ban then none else some ban)
unfolding remove_expired_bans
remove_expired_stored now s mask ban root readable valid e =
    stored-remove_masks (expired_masks now (iter s.bans)) s.bans (path nick mask) root
    ∙ rw e (elim (Bool-cases (is_expired now ban)) [
      | inl old ↦ rw (old, expired_path now s.bans mask ban root valid e old)
      | inr fresh ↦
          elim (Bool-cases (any_path (expired_masks now (iter s.bans)) (path nick mask))) [
            | inl hit ↦ absurd (cc (fresh, fresh_path now s.bans mask ban root readable e hit))
            | inr miss ↦ rw (fresh, miss)
          ]
    ])

is_expired_cases :
    (now : DateTime) (ban : ServerBan)
    → ((is_expired now ban ≡ true) × ((t : DateTime) × (ban.expires ≡ some t) × (t ≤ now)))
      ⊎ ((is_expired now ban ≡ false)
          × ((ban.expires ≡ none) ⊎ ((t : DateTime) × (ban.expires ≡ some t) × (now < t))))
is_expired_cases now ban = elim (Option-cases ban.expires) [
  | inl e ↦ inr (rw e refl, inl e)
  | inr (t, e) ↦ elim (Bool-cases (leb t now)) [
    | inl old ↦ inl (rw (e, old) refl, (t, e, ground arith))
    | inr fresh ↦ inr (rw (e, fresh) refl, inr (t, e, ground arith))
  ]
]

-- A ban that is stored under a valid mask is removed if it has a time of expiry that is not after
-- `now`, and stays as it is if it has none or a later one.
pub remove_expired_bans_exact :
    (now : DateTime) (s : Server) (mask : HostMask) (ban : ServerBan)
    → IsRoot s.bans
    → StoresValid s.bans
    → IsValid mask
    → stored s.bans (path nick mask) ≡ some ban
    → ((stored (remove_expired_bans now s).0.bans (path nick mask) ≡ none)
        × ((t : DateTime) × (ban.expires ≡ some t) × (t ≤ now)))
      ⊎ ((stored (remove_expired_bans now s).0.bans (path nick mask) ≡ some ban)
          × ((ban.expires ≡ none) ⊎ ((t : DateTime) × (ban.expires ≡ some t) × (now < t))))
remove_expired_bans_exact now s mask ban root readable valid e =
    let left = remove_expired_stored now s mask ban root readable valid e in
    elim (is_expired_cases now ban) [
      | inl (old, why) ↦ inl (rw old at left, why)
      | inr (fresh, why) ↦ inr (rw fresh at left, why)
    ]
