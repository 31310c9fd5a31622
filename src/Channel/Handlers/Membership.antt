-- ===== src/Channel/Handlers/Membership.antt =====
-- The handlers of src/channel.rs by which clients join and leave, and those of the topic.
use titanirc.Base.{
  Bool, true, false, not, Option, none, some, List, [], ◌∷◌, ◌++◌, map, if◌then◌else◌, find, lookup,
  insert, remove, contains_key, keys, nat_eq, HashMap, Text, text, text_eq, ◌==◌,
}
use titanirc.Irc.{IrcLibrary, Message, Command, Prefix, Mode, from_prefix}
use titanirc.HostMask.{HostMask}
use titanirc.HostMaskMap
use titanirc.HostMaskMap.{HostMaskMap}
use titanirc.Permission.{Permission, founder, can_join, can_set_topic, can_kick, into_mode}
use titanirc.Connection.{DateTime, InitiatedConnection, to_nick, to_host_mask}
use titanirc.Messages.{
  ClientAddr, kicked_from_channel, channel_joined, channel_parted, set_user_channel_permissions,
  ServerDisconnect, ChannelJoin, ChannelPart, ChannelKickUser, ChannelUpdateTopic, ChannelInvite,
}
use titanirc.Channel.{Channel, Sent, to_client, persist, notify_broadcast, get_user_permissions}
use titanirc.Channel.Responses.{
  channel_topic, topic_messages, member_list, names_messages, missing_privileges,
  ChannelInviteResult, not_on_channel, no_such_user, user_already_on_channel, successful,
  ChannelJoinRejectionReason, banned,
}
use titanirc.Channel.Handlers.{tell}

-- The mask of the founder: any nick and any host.
abbrev pub username_mask : Text → HostMask
username_mask user = record { nick = text "*"; username = user; host = text "*" }

-- What the first to join gets: the channel with the founder's mask, the event, the permission.
abbrev pub found : Channel → Text → Permission → Channel × List Sent × Permission
found c user permissions =
    if HostMaskMap.is_empty c.permissions
    then (
      record c { permissions = HostMaskMap.insert c.permissions (username_mask user) founder },
      persist (set_user_channel_permissions c.channel_id (username_mask user) founder) ∷ [],
      founder,
    )
    else (c, [], permissions)

-- The join, and the mode of the joining user if there is one, to one client.
abbrev pub announce_join : Message → Option Message → ClientAddr → List Sent
announce_join join none client = tell join client ∷ []
announce_join join (some mode) client = tell join client ∷ tell mode client ∷ []

abbrev pub announce_joins : Message → Option Message → List ClientAddr → List Sent
announce_joins join mode [] = []
announce_joins join mode (client ∷ rest) =
    announce_join join mode client ++ announce_joins join mode rest

abbrev pub mode_message : InitiatedConnection → Text → Option Mode → Option Message
mode_message conn name none = none
mode_message conn name (some mode) =
    some (from_prefix (to_nick conn) (Command.channel_mode name (mode ∷ [])))

-- `ctx.address()`, or the reason of the rejection.
pub data JoinResult : Type 0 where
  joined : JoinResult
  rejected : ChannelJoinRejectionReason → JoinResult

abbrev pub has_nick : Text → ClientAddr × InitiatedConnection → Bool
has_nick nick (handle, client) = client.nick == nick

abbrev pub kick_message :
    Channel → InitiatedConnection → InitiatedConnection → ChannelKickUser → Message
kick_message c kicker kicked msg =
    from_prefix (to_nick kicker) (Command.kick c.name kicked.nick msg.reason)

module _ (irc : IrcLibrary) (show_time : DateTime → Text) where
  -- The topic is addressed to the channel's name, as in the source.
  abbrev pub welcome : Channel → ChannelJoin → List Sent
  welcome c msg =
      map (λ (m : Message). tell m msg.client)
        (topic_messages show_time (channel_topic c true) c.name)
      ++ map (λ (m : Message). tell m msg.client)
          (names_messages irc (member_list c) msg.connection.nick
            msg.connection.capabilities.userhost_in_names)

  -- `Handler<ChannelJoin>`
  unfoldable pub handle_join : Channel → ChannelJoin → Channel × List Sent × JoinResult
  handle_join c msg =
      let conn : InitiatedConnection = msg.connection in
      let permissions : Permission = get_user_permissions c (to_host_mask conn) in
      if not (can_join permissions)
      then (c, [], rejected banned)
      else (let (founded, founding, granted) = found c conn.user permissions in
          let c' : Channel = record founded { clients = insert msg.client conn founded.clients } in
          let join : Message = from_prefix (to_nick conn) (Command.join c.name none none) in
          let mode : Option Message = mode_message conn c.name (into_mode granted true conn.nick) in
          (
            c',
            persist (channel_joined c.channel_id conn.user_id)
                ∷ (founding ++ (announce_joins join mode (keys c'.clients) ++ welcome c' msg)),
            joined,
          ))

  abbrev pub tell_topic : Channel → HashMap ClientAddr InitiatedConnection → List Sent
  tell_topic c [] = []
  tell_topic c ((client, connection) ∷ rest) =
      map (λ (m : Message). tell m client)
        (topic_messages show_time (channel_topic c false) connection.nick)
      ++ tell_topic c rest

  -- `Handler<ChannelUpdateTopic>`; `now` is `Utc::now()`.
  unfoldable pub handle_update_topic : DateTime → Channel → ChannelUpdateTopic → Channel × List Sent
  handle_update_topic now c msg = elim (lookup msg.client c.clients) [
    | none ↦ (c, [])
    | some client_info ↦
        if not (can_set_topic (get_user_permissions c (to_host_mask client_info)))
        then (c, tell (missing_privileges irc (to_nick client_info) c.name) msg.client ∷ [])
        else (let c' : Channel = record c {
          topic = some (record { topic = msg.topic; set_by = client_info.nick; set_time = now });
        } in
            (c', tell_topic c' c'.clients))
  ]

  -- `Handler<ChannelKickUser>`
  unfoldable pub handle_kick : Channel → ChannelKickUser → Channel × List Sent
  handle_kick c msg = elim (lookup msg.client c.clients) [
    | none ↦ (c, [])
    | some kicker ↦
        if not (can_kick (get_user_permissions c (to_host_mask kicker)))
        then (c, tell (missing_privileges irc (to_nick kicker) c.name) msg.client ∷ [])
        else elim (find (has_nick msg.user) c.clients) [
          | none ↦ (c, [])
          | some (handle, kicked) ↦ (
            record c { clients = remove handle c.clients },
            map (tell (kick_message c kicker kicked msg)) (keys c.clients)
                ++ to_client handle (kicked_from_channel c.name) ∷ [],
          )
        ]
  ]

-- `Handler<ChannelPart>`
unfoldable pub handle_part : Channel → ChannelPart → Channel × List Sent
handle_part c msg = elim (lookup msg.client c.clients) [
  | none ↦ (c, [])
  | some client_info ↦
      let message : Message = from_prefix (to_nick client_info) (Command.part c.name msg.message) in
      (
        record c { clients = remove msg.client c.clients },
        persist (channel_parted c.channel_id client_info.user_id)
            ∷ tell message msg.client
            ∷ notify_broadcast message
            ∷ [],
      )
]

-- `Handler<ServerDisconnect>`
unfoldable pub handle_disconnect : Channel → ServerDisconnect → Channel × List Sent
handle_disconnect c msg = elim (lookup msg.client c.clients) [
  | none ↦ (c, [])
  | some client_info ↦ (
    record c { clients = remove msg.client c.clients },
    notify_broadcast (from_prefix (to_nick client_info) (Command.quit msg.message)) ∷ [],
  )
]

-- `Handler<ChannelInvite>` up to its request to the server: the answer, or the prefix of the
-- inviting client.
pub data Inviting : Type 0 where
  answered : ChannelInviteResult → Inviting
  asking : Prefix → Inviting

unfoldable pub handle_invite : Channel → ChannelInvite → Inviting
handle_invite c msg = elim (lookup msg.client c.clients) [
  | none ↦ answered not_on_channel
  | some source ↦ asking (to_nick source)
]

-- The rest of it, on the state at the time of the server's answer.
unfoldable pub continue_invite :
    Channel → Prefix → ChannelInvite → Option ClientAddr → List Sent × ChannelInviteResult
continue_invite c source msg none = ([], no_such_user)
continue_invite c source msg (some client) =
    if contains_key client c.clients
    then ([], user_already_on_channel)
    else (tell (from_prefix source (Command.invite msg.nick c.name)) client ∷ [], successful)
