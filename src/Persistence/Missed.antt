-- ===== src/Persistence/Missed.antt =====
-- What src/persistence.rs keeps of a message for those who were not there to hear it.
use titanirc.Base.{
  ◌≤◌, ◌<◌, ◌-◌, max, ◌≡◌, refl, ap, ◌∙◌, inl, inr, true, false, some, List, [], ◌∷◌, ◌++◌, arith,
  map, lookup, nat_beq_iff, nat_eq, text_eq, Text, Bool-cases, ◌==◌, beq_refl, Has, Has-keep, keep,
  Has-append_right,
}
use titanirc.Connection.{DateTime, UserId}
use titanirc.Messages.{ChannelId, MessageKind}
use titanirc.Persistence.{
  Persistence, ChannelUser, ChannelRow, monotonically_increasing_id, is_row, one_of, mark_seen,
  seen_until, is_unseen, persist_channel_message, fetch_unseen_channel_messages,
}
use titanirc.Persistence.Clock.{monotonically_increasing_id_increases}
use titanirc.Persistence.Replay.{both}
use titanirc.Persistence.Sorted.{Has-order_by_timestamp}

-- A user who is not among the receivers has seen no more than before.
seen_until-mark_seen :
    (channel : ChannelId) (user : UserId) (id : DateTime) (receivers : List UserId)
    (rows : List ChannelUser)
    → one_of user receivers ≡ false
    → seen_until channel user (map (mark_seen channel id receivers) rows)
      ≡ seen_until channel user rows
seen_until-mark_seen channel user id receivers [] o = refl
seen_until-mark_seen channel user id receivers (x ∷ rows) o =
    elim (Bool-cases (is_row channel user x)) [
      | inl t ↦
          let (c, u) = both (x.channel == channel) (x.user == user) t in
          let apart = ap (λ w. one_of w receivers) ((nat_beq_iff x.user user).0 u) ∙ o in
          let found : is_row channel user (mark_seen channel id receivers x) ≡ true = t in
          rw (seen_until, found, c, apart) refl
      | inr n ↦
          let missed : is_row channel user (mark_seen channel id receivers x) ≡ false = n in
          rw (seen_until, missed) (seen_until-mark_seen channel user id receivers rows o)
    ]

unseen_here :
    (channel : ChannelId) (after : DateTime) (r : ChannelRow)
    → (r.channel == channel) ≡ true
    → after < r.timestamp
    → is_unseen channel after r ≡ true
unseen_here channel after r c h = rw c (ground arith)

-- A message that a user was not there to receive is given to them, however much they had seen
-- before, unless it is older than the time span.
pub absent_replayed :
    (now later_on : DateTime) (p : Persistence) (channel : ChannelId) (name sender message : Text)
    (receivers : List UserId) (kind : MessageKind) (user : UserId)
    → lookup name p.database.channels ≡ some channel
    → one_of user receivers ≡ false
    → seen_until channel user p.database.channel_users ≤ p.last_seen_clock
    → later_on - p.max_message_replay_since < now
    → Has
        (record {
          channel = channel;
          timestamp = monotonically_increasing_id now p;
          sender = sender;
          message = message;
          kind = kind;
        })
        (fetch_unseen_channel_messages later_on
          (persist_channel_message now p channel sender message receivers kind)
          name
          user)
unfolding persist_channel_message fetch_unseen_channel_messages
absent_replayed now later_on p channel name sender message receivers kind user known apart seen
      recent =
    let id : DateTime = monotonically_increasing_id now p in
    let (above, at_now) = monotonically_increasing_id_increases now p in
    let row : ChannelRow = record {
      channel = channel;
      timestamp = id;
      sender = sender;
      message = message;
      kind = kind;
    } in
    let since : DateTime = later_on - p.max_message_replay_since in
    let before : DateTime = seen_until channel user p.database.channel_users in
    let here : is_unseen channel (max since before) row ≡ true =
      unseen_here channel (max since before) row (beq_refl channel)
        (omega (arith, above, at_now, seen, recent)) in
    rw
      (
        fetch_unseen_channel_messages,
        known,
        seen_until-mark_seen channel user id receivers p.database.channel_users apart,
      )
      (Has-order_by_timestamp row
        (keep (is_unseen channel (max since before)) (p.database.channel_messages ++ row ∷ []))
        ((Has-keep (is_unseen channel (max since before)) row
            (p.database.channel_messages ++ row ∷ [])).1
          (Has-append_right row p.database.channel_messages (row ∷ []) (inl refl), here)))
