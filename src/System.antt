-- ===== src/System.antt =====
-- The actors of src/ together: what a client sends, handled by the server and the channels, one
-- message after another, until nothing is left to do.
pub mod Absent
pub mod Answers
pub mod Whois
pub mod Offline
pub mod Departure
pub mod Renaming
pub mod Spreading
use titanirc.Base.{List, [], ◌∷◌, ◌++◌, Option, some, none, HashMap, lookup, insert, nat_eq, Text}
use titanirc.Irc.{IrcLibrary, Message}
use titanirc.Messages.{Event, ChannelAddr, ClientAddr, ToClient}
use titanirc.Connection.{DateTime}
use titanirc.Channel
use titanirc.Channel.{Channel, SetUserMode}
use titanirc.Channel.Handlers.{
  handle_broadcast, handle_client_away, handle_message, handle_set_mode, handle_set_user_mode,
  handle_nick_change,
}
use titanirc.Channel.Handlers.Membership.{
  handle_update_topic, handle_kick, handle_part, handle_disconnect, handle_invite, Inviting,
  answered, asking, continue_invite,
}
use titanirc.Channel.Store.{events_of}
use titanirc.Client
use titanirc.Client.{ToServer, ToChannel, Question}
use titanirc.Server
use titanirc.Server.{Server}
use titanirc.Server.Handlers.{
  handle_nick_change_internal, handle_wallops, handle_server_disconnect, handle_user_nick_change,
  handle_kill_user, handle_server_away, handle_private_message,
}
use titanirc.Server.Queries.{handle_force_disconnect, handle_fetch_client_by_nick}
use titanirc.Server.Bans.{handle_gline, handle_remove_gline}

-- The server and the channels, with all that the clients and the database have been sent.
pub record World : Type 0 where
  pub server : Server
  pub channels : HashMap ChannelAddr Channel
  pub heard : List (ClientAddr × ToClient)
  pub events : List Event

-- A channel when it has handled what it sent itself, and what it sent to others.
pub record Settled : Type 0 where
  pub channel : Channel
  pub heard : List (ClientAddr × ToClient)
  pub events : List Event

abbrev pub heard_of : List Channel.Sent → List (ClientAddr × ToClient)
heard_of [] = []
heard_of (Channel.to_client a m ∷ sent) = (a, m) ∷ heard_of sent
heard_of (Channel.persist e ∷ sent) = heard_of sent
heard_of (Channel.notify_broadcast m ∷ sent) = heard_of sent
heard_of (Channel.notify_set_user_mode m ∷ sent) = heard_of sent

-- The channel's messages to itself: the broadcasts, which send to clients only, and the changes of
-- a mode, whose own messages are broadcasts.
abbrev pub broadcasts : Channel → List Channel.Sent → List (ClientAddr × ToClient)
broadcasts c [] = []
broadcasts c (Channel.notify_broadcast m ∷ sent) =
    heard_of (handle_broadcast c m).1 ++ broadcasts c sent
broadcasts c (Channel.to_client a m ∷ sent) = broadcasts c sent
broadcasts c (Channel.persist e ∷ sent) = broadcasts c sent
broadcasts c (Channel.notify_set_user_mode m ∷ sent) = broadcasts c sent

abbrev pub settle_mode : Channel → SetUserMode → Settled
settle_mode c m =
    let (c', sent) = handle_set_user_mode c m in
    record { channel = c'; heard = heard_of sent ++ broadcasts c' sent; events = events_of sent }

abbrev pub settle_modes : Settled → List Channel.Sent → Settled
settle_modes s [] = s
settle_modes s (Channel.notify_set_user_mode m ∷ sent) =
    let t : Settled = settle_mode s.channel m in
    settle_modes
      (record { channel = t.channel; heard = s.heard ++ t.heard; events = s.events ++ t.events })
      sent
settle_modes s (Channel.to_client a m ∷ sent) = settle_modes s sent
settle_modes s (Channel.persist e ∷ sent) = settle_modes s sent
settle_modes s (Channel.notify_broadcast m ∷ sent) = settle_modes s sent

-- A channel with what a handler has sent.
abbrev pub settle : Channel → List Channel.Sent → Settled
settle c sent =
    settle_modes
      (record { channel = c; heard = heard_of sent ++ broadcasts c sent; events = events_of sent })
      sent

-- What a panic of the server's handler sends: nothing.
abbrev pub server_heard : List Server.Sent → List (ClientAddr × ToClient)
server_heard [] = []
server_heard (Server.to_client a m ∷ sent) = (a, m) ∷ server_heard sent
server_heard (Server.persist e ∷ sent) = server_heard sent
server_heard (Server.start_channel a name ∷ sent) = server_heard sent
server_heard (Server.forward_join a m ∷ sent) = server_heard sent
server_heard (Server.panic ∷ sent) = server_heard sent

abbrev pub server_events : List Server.Sent → List Event
server_events [] = []
server_events (Server.persist e ∷ sent) = e ∷ server_events sent
server_events (Server.to_client a m ∷ sent) = server_events sent
server_events (Server.start_channel a name ∷ sent) = server_events sent
server_events (Server.forward_join a m ∷ sent) = server_events sent
server_events (Server.panic ∷ sent) = server_events sent

abbrev pub after_server : World → Server × List Server.Sent → World
after_server w (s, sent) = record w {
  server = s;
  heard = w.heard ++ server_heard sent;
  events = w.events ++ server_events sent;
}

abbrev pub after_channel : World → ChannelAddr → Settled → World
after_channel w a s = record w {
  channels = insert a s.channel w.channels;
  heard = w.heard ++ s.heard;
  events = w.events ++ s.events;
}

module _ (irc : IrcLibrary) (show_time : DateTime → Text) (now : DateTime) where
  -- The handlers of the server for what it is sent, and for the questions that change a state.
  abbrev pub at_server : Server → ToServer → Server × List Server.Sent
  at_server s (ToServer.disconnect m) = (handle_server_disconnect s m, [])
  at_server s (ToServer.nick_change m) = handle_user_nick_change s m
  at_server s (ToServer.nick_change_internal m) = (s, handle_nick_change_internal s m)
  at_server s (ToServer.away m) = (handle_server_away s m, [])
  at_server s (ToServer.kill m) = (s, handle_kill_user s m)
  at_server s (ToServer.wallops m) = (s, handle_wallops s m)
  at_server s (ToServer.private m) = (s, handle_private_message irc s m)

  abbrev pub ask : Server → Question → Server × List Server.Sent
  ask s (Question.gline m) = handle_gline now s m
  ask s (Question.remove_gline mask) = handle_remove_gline s mask
  ask s (Question.force_disconnect m) = (s, (handle_force_disconnect s m).0)
  ask s _ = (s, [])

  abbrev pub invited : Server → Channel → Inviting → Text → ClientAddr → List Channel.Sent
  invited s c (answered r) nick client = []
  invited s c (asking source) nick client =
      (continue_invite c source (record { nick = nick; client = client })
        (handle_fetch_client_by_nick s nick)).0

  -- The handlers of a channel.
  abbrev pub at_channel : Server → Channel → ToChannel → Settled
  at_channel s c (ToChannel.disconnect m) = let (c', sent) = handle_disconnect c m in settle c' sent
  at_channel s c (ToChannel.nick_change m) = settle (handle_nick_change c m) []
  at_channel s c (ToChannel.away m) = let (c', sent) = handle_client_away c m in settle c' sent
  at_channel s c (ToChannel.part m) = let (c', sent) = handle_part c m in settle c' sent
  at_channel s c (ToChannel.update_topic m) =
      let (c', sent) = handle_update_topic irc show_time now c m in settle c' sent
  at_channel s c (ToChannel.invite m) = settle c (invited s c (handle_invite c m) m.nick m.client)
  at_channel s c (ToChannel.kick m) =
      let (c', sent) = handle_kick irc show_time c m in settle c' sent
  at_channel s c (ToChannel.message m) = let (c', sent) = handle_message irc c m in settle c' sent
  at_channel s c (ToChannel.set_mode m) =
      let (c', sent, bans) = handle_set_mode c m in settle c' sent
  at_channel s c (ToChannel.fetch_topic b) = settle c []

  -- A message of a client. What it writes to its own stream and sends to itself stays with it; a
  -- channel that is not there is none that the client has the address of.
  unfoldable pub deliver : World → Client.Sent → World
  deliver w (Client.to_server m) = after_server w (at_server w.server m)
  deliver w (Client.ask_server q) = after_server w (ask w.server q)
  deliver w (Client.to_channel a m) = elim (lookup a w.channels) [
    | none ↦ w
    | some c ↦ after_channel w a (at_channel w.server c m)
  ]
  deliver w (Client.write m) = w
  deliver w (Client.notify m) = w
  deliver w Client.stop = w

  unfoldable pub deliver_all : World → List Client.Sent → World
  deliver_all w [] = w
  deliver_all w (m ∷ sent) = deliver_all (deliver w m) sent
