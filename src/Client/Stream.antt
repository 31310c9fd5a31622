-- ===== src/Client/Stream.antt =====
-- The handler of the stream of src/client.rs: what each command of a client leads to.
use titanirc.Base.{
  Bool, true, false, not, Option, none, some, List, [], ◌∷◌, ◌++◌, map, if◌then◌else◌, unwrap_or,
  lookup, remove, Text, text, text_eq, split, trim, ◌==◌,
}
use titanirc.Irc.{IrcLibrary, Message, Command, bare, response}
use titanirc.Irc.Response.{rpl_version, rpl_time, rpl_info, rpl_endofinfo}
use titanirc.Connection.{DateTime}
use titanirc.Connection.Sasl.{sasl_already_authenticated}
use titanirc.Messages.{ClientAddr, ChannelAddr, MessageKind, Duration}
use titanirc.Channel.Responses.{server, reply}
use titanirc.Proto
use titanirc.Proto.{LocalCommand, Result, ProtoError, unknown_command, error_messages}
use titanirc.Client.{
  Client, ToServer, Question, ToChannel, Sent, write, to_server, ask_server, to_channel, notify,
  stop, Notice,
}
use titanirc.Client.Handlers.{parse_channel_name_list}

-- What the handler takes from the outside: the crates, the package's name and version, the text of
-- src/text/info.txt, and the two forms of a time.
pub record Surroundings : Type 0 where
  pub irc : IrcLibrary
  pub humantime : Text → Option Duration
  pub version : Text
  pub info : Text
  pub show_timestamp : DateTime → Text
  pub format_time : DateTime → Text

abbrev pub writes : List Message → List Sent
writes ms = map write ms

abbrev pub refuse : ProtoError → Client → List Sent
refuse e c = writes (error_messages e c.connection.nick)

-- The channel by its name, if the client is connected to it.
abbrev pub with_channel : Client → Text → (ChannelAddr → List Sent) → List Sent
with_channel c name f = elim (lookup name c.channels) [ none ↦ [] | some a ↦ f a ]

abbrev pub kicks : ClientAddr → ChannelAddr → Option Text → List Text → List Sent
kicks me a reason [] = []
kicks me a reason (user ∷ users) =
    to_channel a (ToChannel.kick (record { client = me; user = user; reason = reason }))
    ∷ kicks me a reason users

abbrev pub topic_of : ClientAddr → Option Text → ToChannel
topic_of me none = ToChannel.fetch_topic false
topic_of me (some topic) = ToChannel.update_topic (record { topic = topic; client = me })

-- `NAMES` with its list of channels.
abbrev pub names_of : List Text → List Sent
names_of [] = []
names_of (n ∷ names) = notify (Notice.list_members (n ∷ names)) ∷ []

abbrev pub info_line : Client → Text → Message
info_line c line = bare (response rpl_info (c.connection.nick ∷ line ∷ []))

-- `Client::handle_custom_command`, by the parsed command.
abbrev pub local_command : Client → Result LocalCommand → List Sent
local_command c (Result.err e) = refuse e c
local_command c (Result.ok (LocalCommand.gline mask duration reason)) =
    if c.connection.mode.oper
    then ask_server (
        Question.gline
          (record { requester = c.connection; mask = mask; duration = duration; reason = reason }))
      ∷ []
    else refuse unknown_command c
local_command c (Result.ok (LocalCommand.remove_gline mask)) =
    if c.connection.mode.oper
    then ask_server (Question.remove_gline mask) ∷ []
    else refuse unknown_command c
local_command c (Result.ok LocalCommand.list_gline) =
    if c.connection.mode.oper then ask_server Question.list_gline ∷ [] else refuse unknown_command c

module _ (s : Surroundings) (me : ClientAddr) (now : DateTime) where
  -- `PRIVMSG` and `NOTICE`.
  abbrev pub talk : Client → Text → Text → MessageKind → List Sent
  talk c target message kind =
      if not (s.irc.is_channel_name target)
      then notify (Notice.send_private target message kind) ∷ []
      else with_channel c target λ a.
        to_channel a (ToChannel.message (record { client = me; kind = kind; message = message }))
        ∷ []

  abbrev pub part_from : Client → Text → Option Text → Client × List Sent
  part_from c channel message = elim (lookup channel c.channels) [
    | none ↦ (c, [])
    | some a ↦ (
      record c { channels = remove channel c.channels },
      to_channel a (ToChannel.part (record { client = me; message = message })) ∷ [],
    )
  ]

  -- The arms from `WHO` on.
  unfoldable pub further_sends : Client → Command → List Sent
  further_sends c (Command.who (some query)) = ask_server (Question.who query) ∷ []
  further_sends c (Command.whois (some query)) = ask_server (Question.whois query) ∷ []
  further_sends c Command.whowas = []
  further_sends c (Command.kill nick comment) =
      to_server
        (ToServer.kill (record { killer = c.connection.nick; comment = comment; killed = nick }))
      ∷ []
  further_sends c (Command.ping v _) = write (bare (Command.pong v none)) ∷ []
  further_sends c (Command.away msg) = notify (Notice.set_away msg) ∷ []
  further_sends c Command.rehash = []
  further_sends c Command.die = []
  further_sends c Command.restart = []
  further_sends c (Command.wallops message) =
      if c.connection.mode.oper
      then to_server (ToServer.wallops message) ∷ []
      else refuse unknown_command c
  further_sends c Command.userhost = []
  further_sends c Command.sajoin = []
  further_sends c Command.samode = []
  further_sends c (Command.sanick old_nick new_nick) =
      to_server
        (ToServer.nick_change_internal (record { old_nick = old_nick; new_nick = new_nick }))
      ∷ []
  further_sends c Command.sapart = []
  further_sends c (Command.saquit user comment) =
      if c.connection.mode.oper
      then ask_server (Question.force_disconnect (record { user = user; comment = comment })) ∷ []
      else refuse unknown_command c
  further_sends c (Command.authenticate _) =
      write (sasl_already_authenticated c.connection.nick) ∷ []
  further_sends c Command.account = []
  further_sends c Command.metadata = []
  further_sends c Command.monitor = []
  further_sends c Command.batch = []
  further_sends c Command.chghost = []
  further_sends c (Command.response _ _) = []
  further_sends c (Command.raw command args) =
      local_command c (Proto.try_from s.humantime command args)
  further_sends c _ = refuse unknown_command c

  -- The commands that leave the state as it is: what they send, up to `INFO` here.
  unfoldable pub command_sends : Client → Command → List Sent
  command_sends c (Command.nick new_nick) =
      notify (Notice.change_nick (record { old_nick = c.connection.nick; new_nick = new_nick }))
      ∷ []
  command_sends c Command.user_mode = []
  command_sends c (Command.join names _ _) =
      notify (Notice.join_channels (parse_channel_name_list names)) ∷ []
  command_sends c (Command.channel_mode channel modes) =
      with_channel c channel
        λ a. to_channel a (ToChannel.set_mode (record { client = me; modes = modes })) ∷ []
  command_sends c (Command.topic channel topic) =
      with_channel c channel λ a. to_channel a (topic_of me topic) ∷ []
  command_sends c (Command.names names) = names_of (parse_channel_name_list (unwrap_or names []))
  command_sends c Command.list = ask_server Question.channel_list ∷ []
  command_sends c (Command.invite nick channel) =
      with_channel c channel
        λ a. to_channel a (ToChannel.invite (record { nick = nick; client = me })) ∷ []
  command_sends c (Command.kick channel users reason) =
      with_channel c channel λ a. kicks me a reason (parse_channel_name_list users)
  command_sends c (Command.privmsg target message) = talk c target message MessageKind.normal
  command_sends c (Command.notice target message) = talk c target message MessageKind.notice
  command_sends c Command.motd = ask_server Question.motd ∷ []
  command_sends c Command.lusers = ask_server Question.list_users ∷ []
  command_sends c Command.version =
      write (reply rpl_version (c.connection.nick ∷ s.version ∷ server ∷ [])) ∷ []
  command_sends c Command.time =
      write (
        bare (
          response rpl_time
            (c.connection.nick ∷ server ∷ s.show_timestamp now ∷ s.format_time now ∷ [])))
      ∷ []
  command_sends c Command.admin = ask_server Question.admin_info ∷ []
  command_sends c Command.info =
      writes (map (info_line c) (split 10 (trim s.info)))
      ++ write (bare (response rpl_endofinfo (c.connection.nick ∷ text "End of INFO list" ∷ [])))
        ∷ []
  command_sends c command = further_sends c command

  -- The `match item.command`.
  unfoldable pub handle_client_command : Client → Command → Client × List Sent
  handle_client_command c (Command.quit message) =
      (record c { graceful_shutdown = true; server_leave_reason = message }, stop ∷ [])
  handle_client_command c (Command.part channel message) = part_from c channel message
  handle_client_command c (Command.pong _ _) = (record c { last_active = now }, [])
  handle_client_command c command = (c, command_sends c command)

  -- Whether the nick of the message is another one than the client's.
  abbrev pub is_spoofed : Client → Option Text → Bool
  is_spoofed c none = false
  is_spoofed c (some nick) = not (nick == c.connection.nick)

  -- `StreamHandler::handle`; `none` is a protocol error.
  unfoldable pub handle_item : Client → Option Message → Client × List Sent
  handle_item c none = (c, [])
  handle_item c (some m) =
      if is_spoofed c (s.irc.source_nickname m) then (c, []) else handle_client_command c m.command
