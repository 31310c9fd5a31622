-- ===== src/Client/Answers.antt =====
-- How src/client.rs starts, and what it does with the answers to its questions.
use titanirc.Base.{Option, List, ◌++◌, map, Text}
use mathlib.Core.Option
use titanirc.Irc.{IrcLibrary}
use titanirc.Connection.{DateTime, InitiatedConnection}
use titanirc.Messages.{MessageKind}
use titanirc.Server.Protocol.{IntoProtocol, into_messages}
use titanirc.Client.{Client, Sent, write}
use titanirc.Client.Handlers.{rejoin_channels, send_unseen_private_messages}

-- The messages of an answer, for the nick that the client has when the answer comes.
abbrev pub write_answer : {T : Type 0} ⦃p : IntoProtocol T⦄ → Client → T → List Sent
write_answer c answer = map write (into_messages answer c.connection.nick)

-- `Client::channel_send_map_write` and `Client::server_send_map_write`, with the answer or the
-- error of a mailbox, whose `unwrap` panics: `none`.
unfoldable pub channel_send_map_write :
    {T : Type 0} ⦃p : IntoProtocol T⦄ → Client → Option T → Option (List Sent)
channel_send_map_write c result = Option.map (write_answer c) result

unfoldable pub server_send_map_write :
    {T : Type 0} ⦃p : IntoProtocol T⦄ → Client → Option T → Option (List Sent)
server_send_map_write c result = Option.map (write_answer c) result

-- `Actor::started`, with the database's answers, and the seconds between two pings. The two tasks
-- run at the same time; what they send stands in the order in which they are spawned.
unfoldable pub started :
    IrcLibrary
    → (DateTime → Text)
    → Client
    → List Text
    → List (DateTime × Text × Text × MessageKind)
    → List Sent × DateTime
started irc show_rfc3339 c channels messages =
    (rejoin_channels channels ++ send_unseen_private_messages irc show_rfc3339 c messages, 30)

-- `Handler<FetchClientDetails>`
unfoldable pub handle_fetch_client_details : Client → InitiatedConnection
handle_fetch_client_details c = c.connection
