-- ===== src/Persistence/Replay.antt =====
-- Which stored messages src/persistence.rs gives back to a user.
use titanirc.Base.{
  ◌≤◌, ◌-◌, max, ◌≡◌, refl, ap, ◌∙◌, inl, inr, Bool, true, false, not, ◌&&◌, some, List, [], ◌∷◌,
  ◌++◌, arith, map, keep, find, lookup, nat_beq_iff, beq_refl, nat_eq, text_eq, Text, Bool-cases,
  ◌==◌, All, Has, Has-keep, Has-append_right,
}
use titanirc.Connection.{DateTime, UserId}
use titanirc.Messages.{ChannelId, MessageKind}
use titanirc.Persistence.{
  Persistence, ChannelUser, ChannelRow, PrivateRow, monotonically_increasing_id, is_row, one_of,
  mark_seen, is_for, seen_until, is_unseen, order_by_timestamp, persist_channel_message,
  persist_private_message, fetch_unseen_private_messages, fetch_unseen_channel_messages,
}
use titanirc.Persistence.Clock.{monotonically_increasing_id_increases}

-- No row is later than the clock.
abbrev pub IsCurrent : Persistence → Type 0
IsCurrent p = All (λ r. r.timestamp ≤ p.last_seen_clock) p.database.channel_messages

none_unseen :
    (channel : ChannelId) (after : DateTime) (rows : List ChannelRow)
    → All (λ r. r.timestamp ≤ after) rows
    → keep (is_unseen channel after) rows ≡ []
none_unseen channel after [] h = refl
none_unseen channel after (r ∷ rows) h = ground (arith, h.0, none_unseen channel after rows h.1)

later :
    (a b : DateTime) (rows : List ChannelRow) (r : ChannelRow)
    → a ≤ b
    → All (λ x. x.timestamp ≤ a) rows
    → r.timestamp ≤ b
    → All (λ x. x.timestamp ≤ b) (rows ++ r ∷ [])
later a b [] r h all last = (last, tt)
later a b (x ∷ rows) r h all last = (omega (arith, all.0, h), later a b rows r h all.1 last)

pub both : (a b : Bool) → (a && b) ≡ true → (a ≡ true) × (b ≡ true)
both true b h = (refl, h)
both false b h = absurd (cc h)

find-mark_seen :
    (channel : ChannelId) (user : UserId) (id : DateTime) (receivers : List UserId)
    (rows : List ChannelUser) (r : ChannelUser)
    → one_of user receivers ≡ true
    → find (is_row channel user) rows ≡ some r
    → seen_until channel user (map (mark_seen channel id receivers) rows) ≡ id
find-mark_seen channel user id receivers [] r o e = absurd (cc e)
find-mark_seen channel user id receivers (x ∷ rows) r o e =
    elim (Bool-cases (is_row channel user x)) [
      | inl t ↦
          let (c, u) = both (x.channel == channel) (x.user == user) t in
          let among = ap (λ w. one_of w receivers) ((nat_beq_iff x.user user).0 u) ∙ o in
          let found : is_row channel user (mark_seen channel id receivers x) ≡ true = t in
          rw (seen_until, found, c, among) refl
      | inr n ↦
          let missed : is_row channel user (mark_seen channel id receivers x) ≡ false = n in
          rw (seen_until, missed) (find-mark_seen channel user id receivers rows r o (rw n at e))
    ]

-- Where the clock is not behind the messages that are stored, a message to a channel that the
-- database knows leaves each receiver who has a row for the channel with nothing unseen there,
-- whatever they had not seen before.
pub receivers_have_seen :
    (now later_on : DateTime) (p : Persistence) (channel : ChannelId) (name sender message : Text)
    (receivers : List UserId) (kind : MessageKind) (user : UserId) (r : ChannelUser)
    → IsCurrent p
    → lookup name p.database.channels ≡ some channel
    → one_of user receivers ≡ true
    → find (is_row channel user) p.database.channel_users ≡ some r
    → fetch_unseen_channel_messages later_on
        (persist_channel_message now p channel sender message receivers kind)
        name
        user
      ≡ []
unfolding persist_channel_message fetch_unseen_channel_messages
receivers_have_seen now later_on p channel name sender message receivers kind user r current known
      received row =
    let id : DateTime = monotonically_increasing_id now p in
    let (above, at_now) = monotonically_increasing_id_increases now p in
    let seen = find-mark_seen channel user id receivers p.database.channel_users r received row in
    let after : DateTime = max (later_on - p.max_message_replay_since) id in
    let row : ChannelRow = record {
      channel = channel;
      timestamp = id;
      sender = sender;
      message = message;
      kind = kind;
    } in
    let all =
      later p.last_seen_clock after p.database.channel_messages row (omega (arith, above)) current
        (omega arith) in
    rw (fetch_unseen_channel_messages, known, seen)
      (ap order_by_timestamp
        (none_unseen channel after (p.database.channel_messages ++ row ∷ []) all))

kept_none : {A : Type 0} (f : A → Bool) (xs : List A) → keep f (keep (λ x. not (f x)) xs) ≡ []
kept_none f [] = refl
kept_none f (x ∷ xs) = elim (Bool-cases (f x)) [
  | inl e ↦ rw e (kept_none f xs)
  | inr e ↦ rw (e, e) (kept_none f xs)
]

-- A private message that is stored for a user is given out by the user's next request, and by no
-- later one.
pub private_message_once :
    (now : DateTime) (p : Persistence) (sender message : Text) (kind : MessageKind) (user : UserId)
    → let p' : Persistence = persist_private_message now p sender user message kind in
      let (d, given) = fetch_unseen_private_messages user p'.database in
      Has
        (record {
          timestamp = monotonically_increasing_id now p;
          sender = sender;
          receiver = user;
          message = message;
          kind = kind;
        })
        given
      × ((fetch_unseen_private_messages user d).1 ≡ [])
unfolding persist_private_message fetch_unseen_private_messages
private_message_once now p sender message kind user =
    let new : PrivateRow = record {
      timestamp = monotonically_increasing_id now p;
      sender = sender;
      receiver = user;
      message = message;
      kind = kind;
    } in
    (
      (Has-keep (is_for user) new (p.database.private_messages ++ new ∷ [])).1
          (Has-append_right new p.database.private_messages (new ∷ []) (inl refl), beq_refl user),
      kept_none (is_for user) (p.database.private_messages ++ new ∷ []),
    )

-- Storing a message keeps the rows behind the clock.
pub persist_channel_message-IsCurrent :
    (now : DateTime) (p : Persistence) (channel : ChannelId) (sender message : Text)
    (receivers : List UserId) (kind : MessageKind)
    → IsCurrent p
    → IsCurrent (persist_channel_message now p channel sender message receivers kind)
unfolding persist_channel_message
persist_channel_message-IsCurrent now p channel sender message receivers kind h =
    let id : DateTime = monotonically_increasing_id now p in
    let above = (monotonically_increasing_id_increases now p).0 in
    let row : ChannelRow = record {
      channel = channel;
      timestamp = id;
      sender = sender;
      message = message;
      kind = kind;
    } in
    later p.last_seen_clock id p.database.channel_messages row (omega (arith, above)) h
      (omega arith)
