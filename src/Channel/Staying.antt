-- ===== src/Channel/Staying.antt =====
-- Who is still a member after a message to the actor of src/channel.rs.
use titanirc.Base.{
  ◌≡◌, inl, inr, true, false, arith, Option-cases, lookup, contains_key, nat_eq, contains-insert,
  Text,
}
use titanirc.Irc.{IrcLibrary}
use titanirc.Connection.{DateTime}
use titanirc.Messages.{ClientAddr, UserNickChange, ClientAway, ChannelJoin, ChannelUpdateTopic}
use titanirc.Channel.{Channel, SetUserMode}
use titanirc.Channel.Handlers.{
  handle_broadcast, handle_client_away, handle_set_user_mode, handle_nick_change,
}
use titanirc.Channel.Handlers.Membership.{handle_join, handle_update_topic}
use titanirc.Channel.Mailbox.{
  Request, broadcasting, going_away, messaging, setting_mode, setting_user_mode, changing_nick,
  joining, updating_topic, kicking, parting, disconnecting, is_leaving, step, message_state,
  set_mode_state,
}

module _ (irc : IrcLibrary) (show_time : DateTime → Text) where
  away_keeps :
      (c : Channel) (msg : ClientAway) (a : ClientAddr)
      → contains_key a c.clients ≡ true
      → contains_key a (handle_client_away c msg).0.clients ≡ true
  unfolding handle_client_away
  away_keeps c msg a h = elim (Option-cases (lookup msg.handle c.clients)) [
    | inl e ↦ rw (handle_client_away, e) h
    | inr (conn, e) ↦
        rw (handle_client_away, e)
          (contains-insert msg.handle a (record conn { away = msg.message }) c.clients h)
  ]

  set_user_mode_clients :
      (c : Channel) (msg : SetUserMode) → (handle_set_user_mode c msg).0.clients ≡ c.clients
  unfolding handle_set_user_mode
  set_user_mode_clients c msg = ground arith

  nick_keeps :
      (c : Channel) (msg : UserNickChange) (a : ClientAddr)
      → contains_key a c.clients ≡ true
      → contains_key a (handle_nick_change c msg).clients ≡ true
  unfolding handle_nick_change
  nick_keeps c msg a h = ground (
    arith,
    h,
    contains-insert msg.client a (record msg.connection { nick = msg.new_nick }) c.clients h,
  )

  join_keeps :
      (c : Channel) (msg : ChannelJoin) (a : ClientAddr)
      → contains_key a c.clients ≡ true
      → contains_key a (handle_join irc show_time c msg).0.clients ≡ true
  unfolding handle_join
  join_keeps c msg a h = ground (arith, h, contains-insert msg.client a msg.connection c.clients h)

  topic_clients :
      (now : DateTime) (c : Channel) (msg : ChannelUpdateTopic)
      → (handle_update_topic irc show_time now c msg).0.clients ≡ c.clients
  unfolding handle_update_topic
  topic_clients now c msg = ground arith

  -- A member is still one after every message but a kick, a part or a disconnect.
  pub member_stays :
      (c : Channel) (r : Request) (a : ClientAddr)
      → is_leaving r ≡ false
      → contains_key a c.clients ≡ true
      → contains_key a (step irc show_time c r).0.clients ≡ true
  unfolding step handle_broadcast
  member_stays c (broadcasting msg) a stays h = h
  member_stays c (going_away msg) a stays h = away_keeps c msg a h
  member_stays c (messaging msg) a stays h = rw (message_state irc show_time c msg) h
  member_stays c (setting_mode msg) a stays h = rw (set_mode_state irc show_time c msg) h
  member_stays c (setting_user_mode msg) a stays h = rw (set_user_mode_clients c msg) h
  member_stays c (changing_nick msg) a stays h = nick_keeps c msg a h
  member_stays c (joining msg) a stays h = join_keeps c msg a h
  member_stays c (updating_topic now msg) a stays h = rw (topic_clients now c msg) h
  member_stays c (kicking msg) a stays h = absurd (cc stays)
  member_stays c (parting msg) a stays h = absurd (cc stays)
  member_stays c (disconnecting msg) a stays h = absurd (cc stays)
