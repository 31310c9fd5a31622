-- ===== src/Channel/Store/Rows.antt =====
-- The rows that src/persistence.rs keeps of a channel's permissions, against the trie of
-- src/channel.rs, event by event.
use titanirc.Base.{
  ◌≡◌, refl, ap, sym, ◌∙◌, inl, inr, Bool, true, false, Option, none, some, List, [], ◌∷◌, arith,
  if◌then◌else◌, lookup, HashMap, IsUnique, insert-IsUnique, nat_eq, nat_beq_iff, text_eq, text_beq,
  text_beq_iff, Text, All, Bool-cases, Option-cases, ◌==◌,
}
use titanirc.Base
use mathlib.Core.Option
use titanirc.HostMask.{HostMask, to_string}
use titanirc.HostMask.RoundTrip.{IsValid, to_string_inj}
use titanirc.HostMaskMap
use titanirc.HostMaskMap.{HostMaskMap}
use titanirc.HostMaskMap.Table.{host_mask_eq, host_mask_beq_iff, Represents, put-Represents}
use titanirc.Permission.{Permission}
use titanirc.Connection.{DateTime}
use titanirc.Messages.{
  ChannelId, Event, channel_joined, channel_parted, set_user_channel_permissions, channel_message,
  private_message, server_ban, server_remove_ban,
}
use titanirc.Persistence.{
  Persistence, of_channel, upsert_permission, persist_permission, persist_joined, persist_parted,
  persist_channel_message, persist_private_message,
}
use titanirc.Persistence.Upkeep.{persist_ban, persist_remove_ban}
use titanirc.Persistence.Mailbox.{persist_event, persist_events}

abbrev Rows : Type 0
Rows = List (ChannelId × HostMask × Permission)

abbrev pub HaveValidMasks : List (HostMask × Permission) → Type 0
HaveValidMasks table = All (λ e. IsValid e.0) table

-- Masks have the same text exactly when they are the same.
same_text : (a b : HostMask) → IsValid a → IsValid b → (to_string a == to_string b) ≡ (a == b)
same_text a b va vb = elim (Bool-cases (a == b)) [
  | inl e ↦
      rw e
        ((text_beq_iff (to_string a) (to_string b)).1 (ap to_string ((host_mask_beq_iff a b).0 e)))
  | inr n ↦ rw n (elim (Bool-cases (text_beq (to_string a) (to_string b))) [
    | inr f ↦ f
    | inl y ↦
        let same = to_string_inj a b va vb ((text_beq_iff (to_string a) (to_string b)).0 y) in
        absurd (cc (n, (host_mask_beq_iff a b).1 same))
  ])
]

of_channel-upsert :
    (id : ChannelId) (m : HostMask) (p : Permission) (rows : Rows)
    → IsValid m
    → HaveValidMasks (of_channel id rows)
    → of_channel id (upsert_permission id m p rows) ≡ Base.insert m p (of_channel id rows)
of_channel-upsert id m p [] v vs = ground (arith, nat_beq_iff id id)
of_channel-upsert id m p ((i, n, q) ∷ rows) v vs = elim (Bool-cases (i == id)) [
  | inr e ↦ rw (e, e, of_channel-upsert id m p rows v (rw e at vs))
  | inl e ↦
      let vs' : IsValid n × HaveValidMasks (of_channel id rows) = rw e at vs in
      elim (Bool-cases (n == m)) [
        | inl f ↦ rw (e, same_text n m vs'.0 v, f, e, (host_mask_beq_iff n m).0 f) refl
        | inr f ↦ rw (e, same_text n m vs'.0 v, f, e, of_channel-upsert id m p rows v vs'.1) refl
      ]
]

of_channel-upsert_other :
    (id channel : ChannelId) (m : HostMask) (p : Permission) (rows : Rows)
    → (channel == id) ≡ false
    → of_channel id (upsert_permission channel m p rows) ≡ of_channel id rows
of_channel-upsert_other id channel m p [] n = rw n
of_channel-upsert_other id channel m p ((i, k, q) ∷ rows) n = ground (
  arith,
  nat_beq_iff i channel,
  nat_beq_iff i id,
  nat_beq_iff channel id,
  of_channel-upsert_other id channel m p rows n,
)

insert-valid :
    (m : HostMask) (p : Permission) (table : HashMap HostMask Permission)
    → IsValid m
    → HaveValidMasks table
    → HaveValidMasks (Base.insert m p table)
insert-valid m p [] v vs = (v, tt)
insert-valid m p ((n, q) ∷ table) v vs = elim (Bool-cases (n == m)) [
  | inl e ↦ rw e (v, vs.1)
  | inr e ↦ rw e (vs.0, insert-valid m p table v vs.1)
]

-- What an event does to the rows, and to the permissions of a channel.
abbrev pub written : Event → Rows → Rows
written (set_user_channel_permissions channel m p) rows = upsert_permission channel m p rows
written _ rows = rows

abbrev pub play : ChannelId → HostMaskMap Permission → Event → HostMaskMap Permission
play id map (set_user_channel_permissions channel m p) =
    if channel == id then HostMaskMap.insert map m p else map
play id map _ = map

abbrev pub play_all : ChannelId → HostMaskMap Permission → List Event → HostMaskMap Permission
play_all id map [] = map
play_all id map (e ∷ es) = play_all id (play id map e) es

abbrev pub HasValidMask : Event → Type 0
HasValidMask (set_user_channel_permissions channel m p) = IsValid m
HasValidMask _ = Unit

-- A trie that holds the rows of one channel.
pub record Mirrors (id : ChannelId) (map : HostMaskMap Permission) (rows : Rows) : Type 0 where
  pub represents : Represents map (of_channel id rows)
  pub unique : IsUnique (of_channel id rows)
  pub valid : HaveValidMasks (of_channel id rows)

play-Mirrors :
    (id : ChannelId) (map : HostMaskMap Permission) (rows : Rows) (e : Event)
    → HasValidMask e
    → Mirrors id map rows
    → Mirrors id (play id map e) (written e rows)
play-Mirrors id map rows (set_user_channel_permissions channel m p) v h =
    elim (Bool-cases (channel == id)) [
      | inl e ↦
          let same = (nat_beq_iff channel id).0 e in
          let t = of_channel-upsert id m p rows v h.valid in
          rw (e, same)
            (record {
              represents = rw t (put-Represents map (of_channel id rows) m p v h.represents);
              unique = rw t (insert-IsUnique m p (of_channel id rows) h.unique);
              valid = rw t (insert-valid m p (of_channel id rows) v h.valid);
            })
      | inr n ↦
          let t = of_channel-upsert_other id channel m p rows n in
          rw n (record {
            represents = rw t h.represents;
            unique = rw t h.unique;
            valid = rw t h.valid;
          })
    ]
play-Mirrors id map rows (channel_joined c u) v h = h
play-Mirrors id map rows (channel_parted c u) v h = h
play-Mirrors id map rows (channel_message c s m r k) v h = h
play-Mirrors id map rows (private_message s r m k) v h = h
play-Mirrors id map rows (server_ban m r s c e) v h = h
play-Mirrors id map rows (server_remove_ban m) v h = h

written_tables :
    {q p' : Persistence}
    → some q ≡ some p'
    → (p'.database.channels ≡ q.database.channels)
      × (p'.database.channel_permissions ≡ q.database.channel_permissions)
written_tables e = rw (Option.some_inj.0 e) (refl, refl)

-- An event writes no other tables of the channel than the rows.
persist_event_tables :
    (now : DateTime) (p p' : Persistence) (e : Event)
    → persist_event now p e ≡ some p'
    → (p'.database.channels ≡ p.database.channels)
      × (p'.database.channel_permissions ≡ written e p.database.channel_permissions)
unfolding persist_event persist_permission persist_joined persist_parted persist_channel_message
    persist_private_message persist_ban persist_remove_ban
persist_event_tables now p p' (set_user_channel_permissions c m q) e = written_tables e
persist_event_tables now p p' (channel_joined c u) e = written_tables e
persist_event_tables now p p' (channel_parted c u) e = written_tables e
persist_event_tables now p p' (channel_message c s m r k) e = written_tables e
persist_event_tables now p p' (private_message s r m k) e = written_tables e
persist_event_tables now p p' (server_ban m r s c x) e = ground arith
persist_event_tables now p p' (server_remove_ban m) e = written_tables e

-- The database of a channel under its name and id.
pub record IsKept (name : Text) (id : ChannelId) (map : HostMaskMap Permission) (p : Persistence)
    : Type 0 where
  pub named : lookup name p.database.channels ≡ some id
  pub mirrors : Mirrors id map p.database.channel_permissions

pub event-IsKept :
    (name : Text) (id : ChannelId) (map : HostMaskMap Permission) (now : DateTime)
    (p p' : Persistence) (e : Event)
    → HasValidMask e
    → persist_event now p e ≡ some p'
    → IsKept name id map p
    → IsKept name id (play id map e) p'
event-IsKept name id map now p p' e v ran k =
    let (channels, rows) = persist_event_tables now p p' e ran in
    record {
      named = rw channels k.named;
      mirrors = rw rows (play-Mirrors id map p.database.channel_permissions e v k.mirrors);
    }

pub events-IsKept :
    (name : Text) (id : ChannelId) (now : DateTime) (es : List Event) (map : HostMaskMap Permission)
    (p p' : Persistence)
    → All HasValidMask es
    → persist_events now p es ≡ some p'
    → IsKept name id map p
    → IsKept name id (play_all id map es) p'
unfolding persist_events
events-IsKept name id now [] map p p' v ran k = rw (← Option.some_inj.0 ran) k
events-IsKept name id now (e ∷ es) map p p' v ran k = elim (Option-cases (persist_event now p e)) [
  | inl n ↦ absurd (cc (rw (persist_events, n) at ran))
  | inr (q, s) ↦
      events-IsKept name id now es (play id map e) q p' v.1 (rw (persist_events, s) at ran)
        (event-IsKept name id map now p q e v.0 s k)
]
