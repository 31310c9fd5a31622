-- ===== src/Server/Handlers.antt =====
-- The handlers of src/server.rs but for those of the bans.
use titanirc.Base.{
  Bool, not, ◌&&◌, Option, none, some, List, [], ◌∷◌, ◌++◌, map, if◌then◌else◌, keep, find, length,
  lookup, insert, remove, keys, nat_eq, max, HashMap, Text, text, text_eq, ◌==◌,
}
use titanirc.Irc.{IrcLibrary, Message, Command, server_name, from_prefix, Response}
use titanirc.Irc.Response.{rpl_welcome, rpl_yourhost, rpl_created, rpl_myinfo, rpl_isupport}
use titanirc.Permission.{supported_prefixes}
use titanirc.Connection.{InitiatedConnection, to_nick}
use titanirc.Messages.{
  ClientAddr, ChannelAddr, broadcast, nick_change_internal, nick_change, kill_user, private_message,
  UserConnected, ServerDisconnect, KillUser, UserNickChangeInternal, UserNickChange, ClientAway,
  ChannelJoin, PrivateMessage,
}
use titanirc.Channel.Responses.{server, reply}
use titanirc.Channel.Handlers.{kind_command}
use titanirc.Server.{Server, Sent, to_client, persist, start_channel, forward_join}
use titanirc.Server.Responses.{motd_messages}

abbrev pub has_nick : Text → ClientAddr × InitiatedConnection → Bool
has_nick nick (handle, conn) = conn.nick == nick

abbrev pub by_nick : Server → Text → Option (ClientAddr × InitiatedConnection)
by_nick s nick = find (has_nick nick) s.clients

abbrev pub tell : ClientAddr → Message → Sent
tell client m = to_client client (broadcast m)

-- `Handler<UserNickChangeInternal>`
unfoldable pub handle_nick_change_internal : Server → UserNickChangeInternal → List Sent
handle_nick_change_internal s msg = elim (by_nick s msg.old_nick) [
  | none ↦ []
  | some (client, conn) ↦ to_client client (nick_change_internal msg) ∷ []
]

module _ (irc : IrcLibrary) (version : Text) where
  abbrev pub preamble : InitiatedConnection → List (Response × List Text)
  preamble c =
      (rpl_welcome, (text "Welcome to the network " ++ irc.show_prefix (to_nick c)) ∷ [])
      ∷ (
        rpl_yourhost,
        (text "Your host is " ++ (server ++ (text ", running version " ++ version))) ∷ [],
      )
      ∷ (rpl_created, text "This server was created at some point" ∷ [])
      ∷ (
        rpl_myinfo,
        server
            ∷ version
            ∷ text "DOQRSZaghilopsuwz"
            ∷ text "CFILMPQSbcefgijklmnopqrstuvz"
            ∷ text "bkloveqjfI"
            ∷ [],
      )
      ∷ (
        rpl_isupport,
        (text "PREFIX=" ++ supported_prefixes) ∷ text "are supported by this server" ∷ [],
      )
      ∷ []

  abbrev pub greet : UserConnected → Response × List Text → Sent
  greet msg (response, arguments) =
      tell msg.handle (reply response (msg.connection.nick ∷ arguments))

  -- `Handler<UserConnected>`; `version` is `crate_version!()`.
  unfoldable pub handle_user_connected : Server → UserConnected → Server × List Sent
  handle_user_connected s msg =
      let clients : HashMap ClientAddr InitiatedConnection =
        insert msg.handle msg.connection s.clients in
      (
        record s { clients = clients; max_clients = max (length clients) s.max_clients },
        map (greet msg) (preamble msg.connection)
            ++ map (tell msg.handle) (motd_messages s.motd msg.connection.nick),
      )

-- The clients with the mode, each with the message.
abbrev pub wallop : Message → HashMap ClientAddr InitiatedConnection → List Sent
wallop m [] = []
wallop m ((handle, conn) ∷ rest) =
    if not conn.mode.wallops then wallop m rest else tell handle m ∷ wallop m rest

-- `Handler<Wallops>`
unfoldable pub handle_wallops : Server → Text → List Sent
handle_wallops s message =
    wallop (from_prefix (server_name server) (Command.wallops message)) s.clients

-- `Handler<ServerFetchMotd>`
unfoldable pub handle_fetch_motd : Server → Option Text
handle_fetch_motd s = s.motd

-- `Handler<ServerDisconnect>`
unfoldable pub handle_server_disconnect : Server → ServerDisconnect → Server
handle_server_disconnect s msg = record s { clients = remove msg.client s.clients }

-- `Handler<ChannelJoin>`; `fresh` is the address of the channel that it may start.
unfoldable pub handle_channel_join : Server → ChannelAddr → ChannelJoin → Server × List Sent
handle_channel_join s fresh msg = elim (lookup msg.channel_name s.channels) [
  | some channel ↦ (s, forward_join channel msg ∷ [])
  | none ↦ (
    record s { channels = insert msg.channel_name fresh s.channels },
    start_channel fresh msg.channel_name ∷ forward_join fresh msg ∷ [],
  )
]

abbrev pub tell_nick_change : UserNickChange → ClientAddr → Sent
tell_nick_change msg client = to_client client (nick_change msg)

-- `Handler<UserNickChange>`
unfoldable pub handle_user_nick_change : Server → UserNickChange → Server × List Sent
handle_user_nick_change s msg = (
  elim (lookup msg.client s.clients) [
    | none ↦ s
    | some client ↦ record s {
      clients = insert msg.client (record msg.connection { nick = msg.new_nick }) s.clients;
    }
  ],
  map (tell_nick_change msg) (keys s.clients),
)

abbrev pub kill_nick : KillUser → HashMap ClientAddr InitiatedConnection → List Sent
kill_nick msg [] = []
kill_nick msg ((handle, user) ∷ rest) =
    if user.nick == msg.killed
    then to_client handle (kill_user msg) ∷ kill_nick msg rest
    else kill_nick msg rest

-- `Handler<KillUser>`
unfoldable pub handle_kill_user : Server → KillUser → List Sent
handle_kill_user s msg = kill_nick msg s.clients

-- `Handler<ClientAway>`
unfoldable pub handle_server_away : Server → ClientAway → Server
handle_server_away s msg = elim (lookup msg.handle s.clients) [
  | none ↦ s
  | some c ↦ record s { clients = insert msg.handle (record c { away = msg.message }) s.clients }
]

abbrev pub is_target : PrivateMessage → ClientAddr × InitiatedConnection → Bool
is_target msg (handle, conn) = (conn.user_id == msg.destination) && not (msg.from == handle)

abbrev pub send_private :
    PrivateMessage → InitiatedConnection → ClientAddr × InitiatedConnection → Sent
send_private msg source (target, target_conn) =
    tell target (from_prefix (to_nick source) (kind_command msg.kind target_conn.nick msg.message))

module _ (irc : IrcLibrary) where
  abbrev pub keep_for_later : PrivateMessage → InitiatedConnection → Sent
  keep_for_later msg source =
      persist
        (private_message (irc.show_prefix (to_nick source)) msg.destination msg.message msg.kind)

  -- What is sent to the targets, or else to the database.
  abbrev pub send_or_keep :
      PrivateMessage → InitiatedConnection → List (ClientAddr × InitiatedConnection) → List Sent
  send_or_keep msg source [] = keep_for_later msg source ∷ []
  send_or_keep msg source (t ∷ ts) = map (send_private msg source) (t ∷ ts)

  -- `Handler<PrivateMessage>`
  unfoldable pub handle_private_message : Server → PrivateMessage → List Sent
  handle_private_message s msg = elim (lookup msg.from s.clients) [
    | none ↦ []
    | some source ↦ send_or_keep msg source (keep (is_target msg) s.clients)
  ]
