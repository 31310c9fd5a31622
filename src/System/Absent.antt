-- ===== src/System/Absent.antt =====
-- A message to a channel of src/channel.rs, for a user who is not there.
use titanirc.Base.{
  ◌-◌, ◌≤◌, ◌<◌, ◌≡◌, refl, true, false, some, List, [], ◌∷◌, Has, All, lookup, values, text_eq,
  nat_eq, ◌==◌,
}
use titanirc.Irc.{IrcLibrary}
use titanirc.Permission.{can_chatter}
use titanirc.Connection.{DateTime, UserId, InitiatedConnection, to_nick, to_host_mask}
use titanirc.Messages.{ChannelMessage}
use titanirc.Persistence.{
  Persistence, one_of, seen_until, monotonically_increasing_id, fetch_unseen_channel_messages,
  persist_channel_message,
}
use titanirc.Persistence.Mailbox.{persist_event, persist_events}
use titanirc.Persistence.Missed.{absent_replayed}
use titanirc.Channel.{Channel, get_user_permissions}
use titanirc.Channel.Handlers.{handle_message, user_ids}
use titanirc.Channel.Store.{events_of}
use titanirc.Channel.Delivery.{message_event}

one_of-user_ids :
    (user : UserId) (cs : List InitiatedConnection)
    → All (λ c. (c.user_id == user) ≡ false) cs
    → one_of user (user_ids cs) ≡ false
one_of-user_ids user [] h = refl
one_of-user_ids user (c ∷ cs) h = rw h.0 (one_of-user_ids user cs h.1)

module _ (irc : IrcLibrary) where
  -- What a member says who may chatter, in a channel that the database knows by its name, is kept
  -- for every user who has no client in the channel. Where the clock of the database is not behind
  -- what it has marked as seen by the user there, and it is asked for the user's unseen messages
  -- within the time span, it gives the message out.
  pub absent_user_informed :
      (now later_on : DateTime) (p : Persistence) (c : Channel) (msg : ChannelMessage)
      (sender : InitiatedConnection) (user : UserId)
      → lookup msg.client c.clients ≡ some sender
      → can_chatter (get_user_permissions c (to_host_mask sender)) ≡ true
      → All (λ conn. (conn.user_id == user) ≡ false) (values c.clients)
      → lookup c.name p.database.channels ≡ some c.channel_id
      → seen_until c.channel_id user p.database.channel_users ≤ p.last_seen_clock
      → later_on - p.max_message_replay_since < now
      → (p' : Persistence) × (persist_events now p (events_of (handle_message irc c msg).1)
          ≡ some p')
        × Has
            (record {
              channel = c.channel_id;
              timestamp = monotonically_increasing_id now p;
              sender = irc.show_prefix (to_nick sender);
              message = msg.message;
              kind = msg.kind;
            })
            (fetch_unseen_channel_messages later_on p' c.name user)
  unfolding persist_events persist_event
  absent_user_informed now later_on p c msg sender user member allowed apart known seen recent = (
    persist_channel_message now p c.channel_id (irc.show_prefix (to_nick sender)) msg.message
        (user_ids (values c.clients)) msg.kind,
    rw (message_event irc c msg sender member allowed) refl,
    absent_replayed now later_on p c.channel_id c.name (irc.show_prefix (to_nick sender))
        msg.message (user_ids (values c.clients)) msg.kind user known
        (one_of-user_ids user (values c.clients) apart) seen recent,
  )
