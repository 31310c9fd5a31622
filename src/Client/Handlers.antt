-- ===== src/Client/Handlers.antt =====
-- The handlers of src/client.rs but for that of the stream.
use titanirc.Base.{
  ◌-◌, Bool, not, Option, none, some, List, [], ◌∷◌, ◌++◌, map, if◌then◌else◌, unwrap_or, leb,
  is_some, is_empty, keep, remove, values, Text, text, text_eq, split, nat_eq, ◌==◌,
}
use titanirc.Irc.{IrcLibrary, Message, Tag, Command, bare, from_prefix, response}
use titanirc.Irc.Response.{rpl_nowaway, rpl_unaway}
use titanirc.Permission.{Permission}
use titanirc.Connection.{DateTime, UserId, InitiatedConnection, to_nick}
use titanirc.Connection.Sasl.{nick_not_owned_by_user}
use titanirc.Messages.{ClientAddr, ChannelAddr, MessageKind, KillUser, UserNickChange, ClientAway}
use titanirc.Channel.Responses.{server, MemberList}
use titanirc.Channel.Handlers.{kind_command}
use titanirc.Client.{
  Client, ToServer, ToChannel, Sent, write, to_server, to_channel, notify, stop, Notice,
}

-- `TagBuilder`, with `From<TagBuilder> for Option<Vec<Tag>>`.
abbrev pub insert_tag : Option Tag → List Tag → List Tag
insert_tag none tags = tags
insert_tag (some t) tags = tags ++ t ∷ []

abbrev pub build_tags : List Tag → Option (List Tag)
build_tags tags = if is_empty tags then none else some tags

-- `show_rfc3339` is `to_rfc3339_opts(SecondsFormat::Millis, true)`.
module _ (irc : IrcLibrary) (show_rfc3339 : DateTime → Text) where
  -- `Client::maybe_build_time_tag`
  unfoldable pub maybe_build_time_tag : Client → DateTime → Option Tag
  maybe_build_time_tag c time =
      if not c.connection.capabilities.server_time
      then none
      else some (text "time", some (show_rfc3339 time))

  abbrev pub replayed : Client → Text → DateTime × Text × Text × MessageKind → Message
  replayed c target (sent, sender, message, kind) = record {
    tags = build_tags (insert_tag (maybe_build_time_tag c sent) []);
    prefix = some (irc.prefix_from_str sender);
    command = kind_command kind target message;
  }

  -- `Client::build_unseen_message`
  unfoldable pub build_unseen_message : Client → DateTime × Text × Text × MessageKind → Message
  build_unseen_message c m = replayed c c.connection.nick m

  -- `Client::send_unseen_private_messages`, with the answer of the database.
  unfoldable pub send_unseen_private_messages :
      Client → List (DateTime × Text × Text × MessageKind) → List Sent
  send_unseen_private_messages c messages =
      map
        (λ (m : DateTime × Text × Text × MessageKind).
          notify (Notice.unicast (build_unseen_message c m)))
        messages

-- `Client::rejoin_channels`, with the answer of the database.
unfoldable pub rejoin_channels : List Text → List Sent
rejoin_channels channels = notify (Notice.join_channels channels) ∷ []

-- `Client::handle_ping_interval`, at the time `now`.
unfoldable pub handle_ping_interval : DateTime → Client → Client × List Sent
handle_ping_interval now c =
    let ping : Sent = write (bare (Command.ping server none)) in
    if leb 120 (now - c.last_active)
    then (
      record c { server_leave_reason = some (text "Ping timeout: 120 seconds") },
      stop ∷ ping ∷ [],
    )
    else (c, ping ∷ [])

abbrev pub to_channels : List ChannelAddr → ToChannel → List Sent
to_channels channels m = map (λ (a : ChannelAddr). to_channel a m) channels

-- `Actor::stopped`; `me` is the client's own address.
unfoldable pub stopped : ClientAddr → Client → Client × List Sent
stopped me c =
    let reason : Option Text = c.server_leave_reason in
    (
      record c { server_leave_reason = none },
      to_server (
            ToServer.disconnect (record {
              client = me;
              message =
                  (if c.graceful_shutdown
                    then some (text "Quit: " ++ unwrap_or reason [])
                    else reason);
            }))
          ∷ (to_channels (values c.channels)
                (ToChannel.disconnect (record { client = me; message = reason }))
              ++ write (
                  bare (
                    Command.error (
                      if c.graceful_shutdown
                      then []
                      else text "Closing Link: " ++ unwrap_or reason (text "Ungraceful shutdown"))))
                ∷ []),
    )

-- `Handler<Broadcast>`
unfoldable pub handle_unicast : Message → List Sent
handle_unicast m = write m ∷ []

-- `Handler<ConnectedChannels>`; `permission` is the channels' answer for the client's mask.
unfoldable pub handle_connected_channels :
    (ChannelAddr → Permission) → Client → List (Permission × Text)
handle_connected_channels permission c =
    map (λ (e : Text × ChannelAddr). (permission e.1, e.0)) c.channels

-- `Handler<ForceDisconnect>`
unfoldable pub handle_forced : Client → Client × List Sent
handle_forced c = (c, stop ∷ [])

abbrev pub own_entries : UserId → MemberList → MemberList
own_entries id l = record l {
  nick_list = keep (λ (e : Permission × InitiatedConnection). e.1.user_id == id) l.nick_list;
}

-- `Handler<FetchWhoList>`; `ask` is the channels' answer.
unfoldable pub handle_own_who_list : (ChannelAddr → MemberList) → Client → List MemberList
handle_own_who_list ask c =
    map (λ (a : ChannelAddr). own_entries c.connection.user_id (ask a)) (values c.channels)

abbrev pub not_empty : Option Text → Option Text
not_empty none = none
not_empty (some s) = if not (is_empty s) then some s else none

abbrev pub away_reply : Client → Message
away_reply c =
    if is_some c.connection.away
    then bare
        (response rpl_nowaway (c.connection.nick ∷ text "You have been marked as being away" ∷ []))
    else bare (
        response rpl_unaway
          (c.connection.nick ∷ text "You are no longer marked as being away" ∷ []))

-- `Handler<SetAway>`
unfoldable pub handle_set_away : ClientAddr → Client → Option Text → Client × List Sent
handle_set_away me c msg =
    let c' : Client = record c { connection = record c.connection { away = not_empty msg } } in
    let m : ClientAway = record { handle = me; message = not_empty msg } in
    (
      c',
      to_server (ToServer.away m)
          ∷ (to_channels (values c.channels) (ToChannel.away m) ++ write (away_reply c') ∷ []),
    )

-- `Handler<KillUser>`
unfoldable pub handle_killed : Client → KillUser → Client × List Sent
handle_killed c msg = (
  record c {
    server_leave_reason =
        some (text "Killed (" ++ (msg.killer ++ (text " (" ++ (msg.comment ++ text "))"))));
  },
  stop ∷ [],
)

-- `Handler<UserNickChangeInternal>`, with the answer to `ReserveNick`.
unfoldable pub handle_own_nick_change : ClientAddr → Client → Text → Bool → Client × List Sent
handle_own_nick_change me c new_nick reserved =
    let m : UserNickChange = record {
      client = me;
      connection = c.connection;
      new_nick = new_nick;
    } in
    if not reserved then (c, notify (Notice.unicast (nick_not_owned_by_user new_nick)) ∷ []) else (
      record c { connection = record c.connection { nick = new_nick } },
      to_server (ToServer.nick_change m)
          ∷ to_channels (values c.channels) (ToChannel.nick_change m),
    )

-- `Handler<UserNickChange>`
unfoldable pub handle_other_nick_change : UserNickChange → List Sent
handle_other_nick_change msg =
    write (from_prefix (to_nick msg.connection) (Command.nick msg.new_nick)) ∷ []

-- `Handler<UserKickedFromChannel>`
unfoldable pub handle_kicked : Client → Text → Client
handle_kicked c channel = record c { channels = remove channel c.channels }

-- `Handler<SendPrivateMessage>`, with the answer to `FetchUserIdByNick`.
unfoldable pub handle_send_private : ClientAddr → Text → MessageKind → Option UserId → List Sent
handle_send_private me message kind none = []
handle_send_private me message kind (some destination) =
    to_server (
      ToServer.private
        (record { destination = destination; message = message; kind = kind; from = me }))
    ∷ []

-- `parse_channel_name_list`
unfoldable pub parse_channel_name_list : Text → List Text
parse_channel_name_list s = keep (λ (v : Text). not (is_empty v)) (split b',' s)
