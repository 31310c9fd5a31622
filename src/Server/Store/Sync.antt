-- ===== src/Server/Store/Sync.antt =====
-- The bans of src/server.rs and the rows that src/persistence.rs keeps of them, step by step.
use titanirc.Base.{
  ◌≡◌, refl, ap, sym, ◌∙◌, inl, inr, Bool, true, false, not, ◌||◌, Option, none, some, is_some,
  List, [], ◌∷◌, ◌++◌, map, arith, if◌then◌else◌, find, keep, lookup, nat_eq, text_beq,
  text_beq_iff, Text, All, Ensures, All-append, All-keep, Bool-cases, HashMap,
}
use titanirc.HostMask.{HostMask, to_string}
use titanirc.HostMask.RoundTrip.{IsValid, to_string_inj}
use titanirc.HostMaskMap
use titanirc.HostMaskMap.{HostMaskMap, Key, nick}
use titanirc.HostMaskMap.Paths.{path, path_beq, path_beq_iff}
use titanirc.HostMaskMap.Printing.{path_inj}
use titanirc.HostMaskMap.Stored.{stored}
use titanirc.HostMaskMap.Insertion.{stored-insert}
use titanirc.HostMaskMap.Globs.{IsRoot}
use titanirc.HostMaskMap.Deletion.{stored-remove, remove-IsRoot}
use titanirc.Server.Responses.{ServerBan}
use titanirc.Server.Bans.{remove_masks, forget_ban}
use titanirc.Connection.{UserId, DateTime}
use titanirc.Messages.{server_ban}
use titanirc.Persistence.{Persistence, BanRow}
use titanirc.Persistence.Upkeep.{are_storable, has_mask, persist_ban, persist_remove_ban}
use titanirc.Persistence.Mailbox.{with_database, persist_event, persist_events}
use titanirc.Server.{Sent}
use titanirc.Server.Store.{events_of}

-- Whether a row stands for the path.
abbrev pub has_path : List BanRow → List Key → Bool
has_path [] q = false
has_path (r ∷ rows) q = path_beq (path nick r.mask) q || has_path rows q

abbrev pub AreValid : List BanRow → Type 0
AreValid rows = All (λ r. IsValid r.mask) rows

pub events_of-append : (xs ys : List Sent) → events_of (xs ++ ys) ≡ events_of xs ++ events_of ys
events_of-append [] ys = refl
events_of-append (x ∷ xs) ys = ground (arith, events_of-append xs ys)

same_mask :
    (a b : HostMask)
    → IsValid a
    → IsValid b
    → text_beq (to_string a) (to_string b) ≡ path_beq (path nick a) (path nick b)
same_mask a b va vb = elim (Bool-cases (path_beq (path nick a) (path nick b))) [
  | inl e ↦ rw e (
      (text_beq_iff (to_string a) (to_string b)).1
        (ap to_string (path_inj a b va vb ((path_beq_iff (path nick a) (path nick b)).0 e))))
  | inr e ↦ rw e (elim (Bool-cases (text_beq (to_string a) (to_string b))) [
    | inr n ↦ n
    | inl y ↦
        let same = to_string_inj a b va vb ((text_beq_iff (to_string a) (to_string b)).0 y) in
        absurd (cc (e, (path_beq_iff (path nick a) (path nick b)).1 (ap (path nick) same)))
  ])
]

find-has_path :
    (m : HostMask) (rows : List BanRow)
    → IsValid m
    → AreValid rows
    → is_some (find (has_mask m) rows) ≡ has_path rows (path nick m)
find-has_path m [] v vs = refl
find-has_path m (r ∷ rows) v vs =
    ground (arith, same_mask r.mask m vs.0 v, find-has_path m rows v vs.1)

has_path-append :
    (rows : List BanRow) (r : BanRow) (q : List Key)
    → has_path (rows ++ r ∷ []) q
      ≡ (if path_beq (path nick r.mask) q then true else has_path rows q)
has_path-append [] r q = ground arith
has_path-append (x ∷ rows) r q = ground (arith, has_path-append rows r q)

has_path-remove :
    (m : HostMask) (rows : List BanRow) (q : List Key)
    → IsValid m
    → AreValid rows
    → has_path (keep (λ (r : BanRow). not (has_mask m r)) rows) q
      ≡ (if path_beq (path nick m) q then false else has_path rows q)
has_path-remove m [] q v vs = ground arith
has_path-remove m (r ∷ rows) q v vs = ground (
  arith,
  same_mask r.mask m vs.0 v,
  has_path-remove m rows q v vs.1,
  path_beq_iff (path nick r.mask) (path nick m),
  path_beq_iff (path nick r.mask) q,
  path_beq_iff (path nick m) q,
)

-- A row's requester is a user.
abbrev pub IsKnown : HashMap UserId Text → BanRow → Type 0
IsKnown users r = is_some (lookup r.requester users) ≡ true

-- The rows of a database and the bans of a server stand under the same paths, with valid masks
-- and requesters that are users.
pub record IsSynced (users : HashMap UserId Text) (bans : HostMaskMap ServerBan) (p : Persistence)
    : Type 0 where
  pub valid : AreValid p.database.server_bans
  pub same : (q : List Key) → is_some (stored bans q) ≡ has_path p.database.server_bans q
  pub known : All (IsKnown users) p.database.server_bans
  pub same_users : p.database.users ≡ users

is_some_if :
    {A : Type 0} (b : Bool) (x : A) (o : Option A) (c : Bool)
    → is_some o ≡ c
    → is_some (if b then some x else o) ≡ (if b then true else c)
is_some_if true x o c e = refl
is_some_if false x o c e = e

is_some_unless :
    {A : Type 0} (b : Bool) (o : Option A) (c : Bool)
    → is_some o ≡ c
    → is_some (if b then none else o) ≡ (if b then false else c)
is_some_unless true o c e = refl
is_some_unless false o c e = e

module _ (users : HashMap UserId Text) where
  -- A row that is stored beside its ban.
  insert-IsSynced :
      (bans : HostMaskMap ServerBan) (p : Persistence) (r : BanRow) (ban : ServerBan)
      → IsRoot bans
      → IsValid r.mask
      → IsKnown users r
      → IsSynced users bans p
      → IsSynced users
          (HostMaskMap.insert bans r.mask ban)
          (with_database p (record p.database { server_bans = p.database.server_bans ++ r ∷ [] }))
  insert-IsSynced bans p r ban root valid known s = record {
    valid = All-append (λ r. IsValid r.mask) p.database.server_bans (r ∷ []) s.valid (valid, tt);
    known = All-append (IsKnown users) p.database.server_bans (r ∷ []) s.known (known, tt);
    same_users = s.same_users;
    same = λ q.
        rw (stored-insert bans r.mask ban q root.well_formed, root.at_nick)
          (is_some_if (path_beq (path nick r.mask) q) ban (stored bans q)
              (has_path p.database.server_bans q) (s.same q)
            ∙ sym (has_path-append p.database.server_bans r q));
  }

  pub remove-IsSynced :
      (bans : HostMaskMap ServerBan) (p : Persistence) (m : HostMask)
      → IsRoot bans
      → IsValid m
      → IsSynced users bans p
      → IsSynced users
          (HostMaskMap.remove bans m).0
          (with_database p (persist_remove_ban m p.database))
  unfolding persist_remove_ban
  remove-IsSynced bans p m root valid s = record {
    valid =
        All-keep (λ r. IsValid r.mask) (λ (r : BanRow). not (has_mask m r)) p.database.server_bans
          s.valid;
    known =
        All-keep (IsKnown users) (λ (r : BanRow). not (has_mask m r)) p.database.server_bans
          s.known;
    same_users = s.same_users;
    same = λ q. rw ((stored-remove bans m q root).0) (
        is_some_unless (path_beq (path nick m) q) (stored bans q)
          (has_path p.database.server_bans q) (s.same q)
        ∙ sym (has_path-remove m p.database.server_bans q valid s.valid));
  }

  -- What the server could tell of the refusal of a row.
  abbrev pub is_barred : HostMaskMap ServerBan → BanRow → Bool
  is_barred bans r =
      not (are_storable r.created r.expires)
      || (is_some (stored bans (path nick r.mask)) || not (is_some (lookup r.requester users)))

  -- The database takes a ban exactly when its times may be stored, the server has none under its
  -- mask and its requester is a user.
  pub persist_ban_cases :
      (bans : HostMaskMap ServerBan) (p : Persistence) (r : BanRow)
      → IsValid r.mask
      → IsSynced users bans p
      → persist_ban r p.database ≡ (
          if is_barred bans r
          then none
          else some (record p.database { server_bans = p.database.server_bans ++ r ∷ [] }))
  unfolding persist_ban
  persist_ban_cases bans p r valid s =
      rw
        (
          s.same (path nick r.mask),
          find-has_path r.mask p.database.server_bans valid s.valid,
          s.same_users,
        )
        refl

  pub ban-IsSynced :
      (now : DateTime) (bans : HostMaskMap ServerBan) (p : Persistence) (r : BanRow)
      (ban : ServerBan)
      → IsRoot bans
      → IsValid r.mask
      → IsKnown users r
      → IsSynced users bans p
      → Ensures
          (IsSynced users (HostMaskMap.insert bans r.mask ban))
          (persist_event now p (server_ban r.mask r.requester r.reason r.created r.expires))
  unfolding persist_event
  ban-IsSynced now bans p r ban root valid known s = elim (Bool-cases (is_barred bans r)) [
    | inl e ↦ rw (persist_ban_cases bans p r valid s, e) tt
    | inr e ↦
        rw (persist_ban_cases bans p r valid s, e) (insert-IsSynced bans p r ban root valid known s)
  ]

  pub remove_masks-IsSynced :
      (now : DateTime) (ms : List HostMask) (bans : HostMaskMap ServerBan) (p : Persistence)
      → IsRoot bans
      → All (λ m. IsValid m) ms
      → IsSynced users bans p
      → Ensures
          (IsSynced users (remove_masks ms bans))
          (persist_events now p (events_of (map forget_ban ms)))
  unfolding persist_events persist_event
  remove_masks-IsSynced now [] bans p root valid s = s
  remove_masks-IsSynced now (m ∷ ms) bans p root valid s =
      remove_masks-IsSynced now ms (HostMaskMap.remove bans m).0
        (with_database p (persist_remove_ban m p.database)) (remove-IsRoot bans m root) valid.1
        (remove-IsSynced bans p m root valid.0 s)
