-- ===== src/Persistence/Truncation.antt =====
-- What `truncate_seen_messages` of src/persistence.rs leaves for a user to fetch.
use titanirc.Base.{
  ◌≤◌, ◌-◌, max, ◌≡◌, refl, ap, sym, ◌∙◌, inl, inr, Bool, true, false, not, Option, none, some,
  List, [], ◌∷◌, arith, keep, find, unwrap_or, leb, lookup, nat_beq_iff, nat_eq, text_eq, Text,
  Bool-cases, ◌==◌,
}
use titanirc.Connection.{DateTime, UserId}
use titanirc.Messages.{ChannelId}
use titanirc.Persistence.Replay.{both}
use titanirc.Persistence.{
  Persistence, ChannelUser, ChannelRow, is_row, seen_until, is_unseen, order_by_timestamp,
  fetch_unseen_channel_messages,
}
use titanirc.Persistence.Upkeep.{
  least, min_seen, is_kept, remove_before, truncate_channels, truncate_seen_messages,
}

negated : {a : Bool} → not a ≡ false → a ≡ true
negated {a = true} h = refl
negated {a = false} h = absurd (cc h)

dropped_seen :
    (channel c : ChannelId) (after bound : DateTime) (r : ChannelRow)
    → ((c == channel) ≡ true → bound ≤ after)
    → is_kept c bound r ≡ false
    → is_unseen channel after r ≡ false
dropped_seen channel c after bound r h k = elim (Bool-cases (r.channel == channel)) [
  | inr n ↦ rw n refl
  | inl y ↦
      let (same, old) = both (r.channel == c) (leb r.timestamp bound) (negated k) in
      let here = ap (λ w. w == channel) (sym ((nat_beq_iff r.channel c).0 same)) ∙ y in
      rw y (ground (arith, h here, old))
]

unseen_kept :
    (channel c : ChannelId) (after bound : DateTime) (rows : List ChannelRow)
    → ((c == channel) ≡ true → bound ≤ after)
    → keep (is_unseen channel after) (keep (is_kept c bound) rows)
      ≡ keep (is_unseen channel after) rows
unseen_kept channel c after bound [] h = refl
unseen_kept channel c after bound (r ∷ rows) h =
    let rest = unseen_kept channel c after bound rows h in
    elim (Bool-cases (is_kept c bound r)) [
      | inl k ↦ rw (k, rest) refl
      | inr k ↦ rw (k, dropped_seen channel c after bound r h k) rest
    ]

unseen-truncate_channels :
    (channel : ChannelId) (after expired : DateTime) (users us : List ChannelUser)
    (rows : List ChannelRow)
    → remove_before expired users channel ≤ after
    → keep (is_unseen channel after) (truncate_channels expired users us rows)
      ≡ keep (is_unseen channel after) rows
unseen-truncate_channels channel after expired users [] rows h = refl
unseen-truncate_channels channel after expired users (u ∷ us) rows h =
    let bound : DateTime = remove_before expired users u.channel in
    unseen-truncate_channels channel after expired users us (keep (is_kept u.channel bound) rows) h
    ∙ unseen_kept channel u.channel after bound rows
        (λ e. rw ((nat_beq_iff u.channel channel).0 e) h)

abbrev IsAtMost : DateTime → Option DateTime → Type 0
IsAtMost t none = ⊥
IsAtMost t (some m) = m ≤ t

least_right : (a b : Option DateTime) (t : DateTime) → IsAtMost t b → IsAtMost t (least a b)
least_right none b t h = h
least_right (some a) none t h = absurd h
least_right (some a) (some b) t h = omega (arith, h)

least_left : (t : DateTime) (b : Option DateTime) → IsAtMost t (least (some t) b)
least_left t none = omega arith
least_left t (some b) = omega arith

min_seen-IsAtMost :
    (channel : ChannelId) (user : UserId) (users : List ChannelUser) (r : ChannelUser)
    (t : DateTime)
    → find (is_row channel user) users ≡ some r
    → r.last_seen ≡ some t
    → IsAtMost t (min_seen channel users)
min_seen-IsAtMost channel user [] r t e s = absurd (cc e)
min_seen-IsAtMost channel user (x ∷ users) r t e s = elim (Bool-cases (is_row channel user x)) [
  | inl y ↦
      let (c, u) = both (x.channel == channel) (x.user == user) y in
      let found : x.last_seen ≡ some t = cc (s, rw y at e) in
      rw (min_seen, c, found) (least_left t (min_seen channel users))
  | inr n ↦
      let rest = min_seen-IsAtMost channel user users r t (rw n at e) s in
      elim (Bool-cases (x.channel == channel)) [
        | inl c ↦ rw c (least_right x.last_seen (min_seen channel users) t rest)
        | inr c ↦ rw c rest
      ]
]

at_most : (o : Option DateTime) (t : DateTime) → IsAtMost t o → unwrap_or o 0 ≤ t
at_most none t h = absurd h
at_most (some m) t h = h

-- A truncation changes nothing of what is unseen for a user who has seen a message of the channel,
-- from then on.
pub truncated_unseen :
    (now later : DateTime) (p : Persistence) (channel : ChannelId) (name : Text) (user : UserId)
    (r : ChannelUser) (t : DateTime)
    → now ≤ later
    → lookup name p.database.channels ≡ some channel
    → find (is_row channel user) p.database.channel_users ≡ some r
    → r.last_seen ≡ some t
    → fetch_unseen_channel_messages later (truncate_seen_messages now p) name user
      ≡ fetch_unseen_channel_messages later p name user
unfolding truncate_seen_messages fetch_unseen_channel_messages
truncated_unseen now later p channel name user r t h known row seen =
    let least_ =
      at_most (min_seen channel p.database.channel_users) t
        (min_seen-IsAtMost channel user p.database.channel_users r t row seen) in
    let until : seen_until channel user p.database.channel_users ≡ t =
      rw (seen_until, row, seen) refl in
    let expired : DateTime = now - p.max_message_replay_since in
    let after : DateTime = max (later - p.max_message_replay_since) t in
    rw (fetch_unseen_channel_messages, known, until)
      (ap order_by_timestamp (
        unseen-truncate_channels channel after expired p.database.channel_users
          p.database.channel_users p.database.channel_messages (omega (arith, least_, h))))
