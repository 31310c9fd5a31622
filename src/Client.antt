-- ===== src/Client.antt =====
-- The actor of src/client.rs. A handler returns the state that it leaves and what it sends, in
-- order. Where the actor waits for another actor's answer, the handler is split at that point, and
-- the second part takes the answer.
pub mod Handlers
pub mod Joining
pub mod Answers
pub mod Stream
pub mod Guards
pub mod Names
pub mod State
pub mod Liveness
use titanirc.Base.{ℕ, Bool, false, Option, none, some, List, [], HashMap, Text}
use titanirc.Irc.{Message}
use titanirc.HostMask.{HostMask}
use titanirc.Connection.{DateTime, UserId, InitiatedConnection}
use titanirc.Messages.{
  ClientAddr, ChannelAddr, MessageKind, ServerDisconnect, KillUser, ForceDisconnect, UserNickChange,
  UserNickChangeInternal, ClientAway, ChannelPart, ChannelSetMode, ChannelKickUser,
  ChannelUpdateTopic, ChannelMessage, ChannelInvite, ChannelJoin, PrivateMessage, Gline,
}

-- `struct Client`; an `Instant` is a time in seconds.
pub record Client : Type 0 where
  pub connection : InitiatedConnection
  pub channels : HashMap Text ChannelAddr
  pub last_active : DateTime
  pub graceful_shutdown : Bool
  pub server_leave_reason : Option Text

-- What a client sends to the server without waiting, and the questions whose answer it writes out.
pub data ToServer : Type 0 where
  disconnect : ServerDisconnect → ToServer
  nick_change : UserNickChange → ToServer
  nick_change_internal : UserNickChangeInternal → ToServer
  away : ClientAway → ToServer
  kill : KillUser → ToServer
  wallops : Text → ToServer
  private : PrivateMessage → ToServer

pub data Question : Type 0 where
  motd list_users admin_info channel_list : Question
  who whois : Text → Question
  force_disconnect : ForceDisconnect → Question
  gline : Gline → Question
  remove_gline : HostMask → Question
  list_gline : Question

pub data ToChannel : Type 0 where
  disconnect : ServerDisconnect → ToChannel
  nick_change : UserNickChange → ToChannel
  away : ClientAway → ToChannel
  part : ChannelPart → ToChannel
  update_topic : ChannelUpdateTopic → ToChannel
  invite : ChannelInvite → ToChannel
  kick : ChannelKickUser → ToChannel
  message : ChannelMessage → ToChannel
  -- questions whose answer is written out
  set_mode : ChannelSetMode → ToChannel
  fetch_topic : Bool → ToChannel

-- What a client sends to itself.
pub data Notice : Type 0 where
  change_nick : UserNickChangeInternal → Notice
  join_channels : List Text → Notice
  list_members : List Text → Notice
  send_private : Text → Text → MessageKind → Notice
  set_away : Option Text → Notice
  unicast : Message → Notice

-- `stop` is `ctx.stop()`.
pub data Sent : Type 0 where
  write : Message → Sent
  to_server : ToServer → Sent
  ask_server : Question → Sent
  to_channel : ChannelAddr → ToChannel → Sent
  notify : Notice → Sent
  stop : Sent
