-- ===== src/Channel/Store/Entering.antt =====
-- What the handlers of src/channel.rs by which clients join and leave write to the database.
use titanirc.Base.{
  ◌≡◌, refl, inl, inr, true, none, some, List, [], ◌∷◌, ◌++◌, lookup, find, keys, nat_eq,
  nat_beq_iff, Text, Bool-cases, Option-cases, HashMap, insert, remove,
}
use titanirc.Irc.{IrcLibrary, Command, from_prefix}
use titanirc.HostMask.RoundTrip.{IsValid}
use titanirc.HostMaskMap
use titanirc.Permission.{Permission, into_mode, can_set_topic, can_kick, can_join}
use titanirc.Connection.{DateTime, UserId, InitiatedConnection, to_host_mask, to_nick}
use titanirc.Messages.{
  ClientAddr, channel_joined, kicked_from_channel, ServerDisconnect, ChannelJoin, ChannelPart,
  ChannelKickUser, ChannelUpdateTopic,
}
use titanirc.Channel.{Channel, Sent, to_client, persist, get_user_permissions}
use titanirc.Channel.Handlers.Membership.{
  handle_join, handle_update_topic, handle_kick, handle_part, handle_disconnect, has_nick,
  username_mask, kick_message, mode_message, announce_joins, welcome, found,
}
use titanirc.Channel.Store.{events_of}
use titanirc.Channel.Store.Silence.{
  events_of-append_quiet, events_of-append_none, events_of-tell_each, events_of-announce_joins,
  events_of-welcome, events_of-tell_topic,
}
use titanirc.Channel.Store.Writing.{IsWritten, silent-IsWritten}

pub found-IsWritten :
    (c : Channel) (user : Text) (p : Permission)
    → IsValid (username_mask user)
    → let (d, founding, granted) = found c user p in IsWritten c (d, founding)
found-IsWritten c user p v =
    let self = (nat_beq_iff c.channel_id c.channel_id).1 refl in
    elim (Bool-cases (HostMaskMap.is_empty c.permissions)) [
      | inl y ↦
          rw y (record { same_name = refl; same_id = refl; played = rw self; valid = (v, tt) })
      | inr n ↦ rw n (silent-IsWritten c c.clients [] refl)
    ]

-- The event of a join comes before the founder's, and what is told after them is no event.
pub joined-IsWritten :
    (c d : Channel) (user : UserId) (clients : HashMap ClientAddr InitiatedConnection)
    (founding told : List Sent)
    → IsWritten c (d, founding)
    → events_of told ≡ []
    → IsWritten c (
      record d { clients = clients },
      persist (channel_joined c.channel_id user) ∷ (founding ++ told),
    )
joined-IsWritten c d user clients founding told w e =
    let only = events_of-append_quiet founding told e in
    record {
      same_name = w.same_name;
      same_id = w.same_id;
      played = rw only w.played;
      valid = rw only (tt, w.valid);
    }

pub part-IsWritten : (c : Channel) (msg : ChannelPart) → IsWritten c (handle_part c msg)
unfolding handle_part
part-IsWritten c msg = elim (Option-cases (lookup msg.client c.clients)) [
  | inl e ↦ rw (handle_part, e) (silent-IsWritten c c.clients [] refl)
  | inr (client, e) ↦
      rw (handle_part, e)
        (record { same_name = refl; same_id = refl; played = refl; valid = (tt, tt) })
]

pub disconnect-IsWritten :
    (c : Channel) (msg : ServerDisconnect) → IsWritten c (handle_disconnect c msg)
unfolding handle_disconnect
disconnect-IsWritten c msg = elim (Option-cases (lookup msg.client c.clients)) [
  | inl e ↦ rw (handle_disconnect, e) (silent-IsWritten c c.clients [] refl)
  | inr (client, e) ↦ rw (handle_disconnect, e) (silent-IsWritten c _ _ refl)
]

module _ (irc : IrcLibrary) (show_time : DateTime → Text) where
  pub topic-IsWritten :
      (now : DateTime) (c : Channel) (msg : ChannelUpdateTopic)
      → IsWritten c (handle_update_topic irc show_time now c msg)
  unfolding handle_update_topic
  topic-IsWritten now c msg = elim (Option-cases (lookup msg.client c.clients)) [
    | inl e ↦ rw (handle_update_topic, e) (silent-IsWritten c c.clients [] refl)
    | inr (client, e) ↦
        elim (Bool-cases (can_set_topic (get_user_permissions c (to_host_mask client)))) [
          | inr n ↦ rw (handle_update_topic, e, n) (silent-IsWritten c c.clients _ refl)
          | inl y ↦
              let c' : Channel = record c {
                topic = some (record { topic = msg.topic; set_by = client.nick; set_time = now });
              } in
              let quiet = events_of-tell_topic irc show_time c' c.clients in
              rw (handle_update_topic, e, y)
                (record {
                  same_name = refl;
                  same_id = refl;
                  played = rw quiet;
                  valid = rw quiet tt;
                })
        ]
  ]

  pub kick-IsWritten :
      (c : Channel) (msg : ChannelKickUser) → IsWritten c (handle_kick irc show_time c msg)
  unfolding handle_kick
  kick-IsWritten c msg = elim (Option-cases (lookup msg.client c.clients)) [
    | inl e ↦ rw (handle_kick, e) (silent-IsWritten c c.clients [] refl)
    | inr (kicker, e) ↦
        elim (Bool-cases (can_kick (get_user_permissions c (to_host_mask kicker)))) [
          | inr n ↦ rw (handle_kick, e, n) (silent-IsWritten c c.clients _ refl)
          | inl y ↦ elim (Option-cases (find (has_nick msg.user) c.clients)) [
            | inl f ↦ rw (handle_kick, e, y, f) (silent-IsWritten c c.clients [] refl)
            | inr ((handle, kicked), f) ↦
                rw (handle_kick, e, y, f)
                  (silent-IsWritten c (remove handle c.clients) _ (
                    events_of-tell_each (kick_message c kicker kicked msg) (keys c.clients)
                      (to_client handle (kicked_from_channel c.name) ∷ []) refl))
          ]
        ]
  ]

  pub join-IsWritten :
      (c : Channel) (msg : ChannelJoin)
      → IsValid (username_mask msg.connection.user)
      → let (c', sent, result) = handle_join irc show_time c msg in IsWritten c (c', sent)
  unfolding handle_join
  join-IsWritten c msg v =
      elim (Bool-cases (can_join (get_user_permissions c (to_host_mask msg.connection)))) [
        | inr n ↦ rw (handle_join, n) (silent-IsWritten c c.clients [] refl)
        | inl y ↦
            let conn : InitiatedConnection = msg.connection in
            let p : Permission = get_user_permissions c (to_host_mask conn) in
            let (d, founding, granted) = found c conn.user p in
            let clients = insert msg.client conn d.clients in
            let join = from_prefix (to_nick conn) (Command.join c.name none none) in
            let mode = mode_message conn c.name (into_mode granted true conn.nick) in
            let d' : Channel = record d { clients = clients } in
            let greeted = events_of-welcome irc show_time d' msg in
            let announced = events_of-announce_joins join mode (keys clients) in
            let told = announce_joins join mode (keys clients) ++ welcome irc show_time d' msg in
            rw (handle_join, y)
              (joined-IsWritten c d conn.user_id clients founding told
                (found-IsWritten c conn.user p v)
                (events_of-append_none (announce_joins join mode (keys clients))
                  (welcome irc show_time d' msg) announced greeted))
      ]
