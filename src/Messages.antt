-- ===== src/Messages.antt =====
-- The messages of src/messages.rs and src/persistence/events.rs, with what the actors send one
-- another. Tracing spans are left out. An `Addr` is the number of its actor; there is one server
-- and one persistence actor, which need no address.
use titanirc.Base.{ℕ, Option, List, Text}
use titanirc.Irc.{Message, Mode}
use titanirc.HostMask.{HostMask}
use titanirc.Permission.{Permission}
use titanirc.Connection.{UserId, DateTime, InitiatedConnection}

abbrev pub ClientAddr : Type 0
ClientAddr = ℕ

abbrev pub ChannelAddr : Type 0
ChannelAddr = ℕ

-- `ChannelId(i64)`
abbrev pub ChannelId : Type 0
ChannelId = ℕ

-- `Duration`, in the unit of `DateTime`
abbrev pub Duration : Type 0
Duration = ℕ

pub data MessageKind : Type 0 where
  normal notice : MessageKind

pub record UserConnected : Type 0 where
  pub handle : ClientAddr
  pub connection : InitiatedConnection

pub record ServerDisconnect : Type 0 where
  pub client : ClientAddr
  pub message : Option Text

pub record KillUser : Type 0 where
  pub killer : Text
  pub comment : Text
  pub killed : Text

pub record ForceDisconnect : Type 0 where
  pub user : Text
  pub comment : Text

pub record UserNickChangeInternal : Type 0 where
  pub old_nick : Text
  pub new_nick : Text

pub record UserNickChange : Type 0 where
  pub client : ClientAddr
  pub connection : InitiatedConnection
  pub new_nick : Text

pub record ClientAway : Type 0 where
  pub handle : ClientAddr
  pub message : Option Text

pub record ChannelJoin : Type 0 where
  pub channel_name : Text
  pub client : ClientAddr
  pub connection : InitiatedConnection

pub record ChannelPart : Type 0 where
  pub client : ClientAddr
  pub message : Option Text

pub record ChannelSetMode : Type 0 where
  pub client : ClientAddr
  pub modes : List Mode

pub record Gline : Type 0 where
  pub requester : InitiatedConnection
  pub mask : HostMask
  pub duration : Option Duration
  pub reason : Option Text

pub record ChannelKickUser : Type 0 where
  pub client : ClientAddr
  pub user : Text
  pub reason : Option Text

pub record ChannelUpdateTopic : Type 0 where
  pub topic : Text
  pub client : ClientAddr

pub record ChannelMessage : Type 0 where
  pub client : ClientAddr
  pub kind : MessageKind
  pub message : Text

pub record ChannelInvite : Type 0 where
  pub nick : Text
  pub client : ClientAddr

pub record PrivateMessage : Type 0 where
  pub destination : UserId
  pub message : Text
  pub kind : MessageKind
  pub from : ClientAddr

-- What is sent to a client.
pub data ToClient : Type 0 where
  broadcast : Message → ToClient
  nick_change_internal : UserNickChangeInternal → ToClient
  nick_change : UserNickChange → ToClient
  kill_user : KillUser → ToClient
  force_disconnect : ForceDisconnect → ToClient
  kicked_from_channel : Text → ToClient

-- The events of src/persistence/events.rs that are sent without waiting for an answer.
pub data Event : Type 0 where
  channel_joined : ChannelId → UserId → Event
  channel_parted : ChannelId → UserId → Event
  set_user_channel_permissions : ChannelId → HostMask → Permission → Event
  -- channel, sender, message, receivers, kind
  channel_message : ChannelId → Text → Text → List UserId → MessageKind → Event
  -- sender, receiver, message, kind
  private_message : Text → UserId → Text → MessageKind → Event
  -- mask, requester, reason, created, expires
  server_ban : HostMask → UserId → Text → DateTime → Option DateTime → Event
  server_remove_ban : HostMask → Event
