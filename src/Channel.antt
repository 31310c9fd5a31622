-- ===== src/Channel.antt =====
-- The actor of src/channel.rs, handler by handler. A handler returns the state that it leaves,
-- what it sends, in order, and its answer.
pub mod Responses
pub mod Handlers
pub mod Access
pub mod Escalation
pub mod Delivery
pub mod Joining
pub mod Mailbox
pub mod Staying
pub mod Leaving
pub mod Founders
pub mod Store
use titanirc.Base.{
  ℕ, Bool, true, false, not, Option, none, some, List, [], ◌∷◌, ◌++◌, map, if◌then◌else◌, unwrap_or,
  HashMap, Text,
}
use titanirc.Irc.{Message}
use titanirc.HostMask.{HostMask}
use titanirc.HostMaskMap
use titanirc.HostMaskMap.{HostMaskMap}
use titanirc.Permission
use titanirc.Permission.{Permission, normal}
use titanirc.Connection.{DateTime, InitiatedConnection}
use titanirc.Messages.{ClientAddr, ChannelId, ToClient, Event}

pub record CurrentChannelTopic : Type 0 where
  pub topic : Text
  pub set_by : Text
  pub set_time : DateTime

-- `struct Channel`
pub record Channel : Type 0 where
  pub name : Text
  pub permissions : HostMaskMap Permission
  pub clients : HashMap ClientAddr InitiatedConnection
  pub topic : Option CurrentChannelTopic
  pub channel_id : ChannelId

-- `SetUserMode`
pub record SetUserMode : Type 0 where
  pub requester : InitiatedConnection
  pub add : Bool
  pub affected_mask : HostMask
  pub user_mode : Permission

-- What a channel sends: to a client, to the database, or to itself.
pub data Sent : Type 0 where
  to_client : ClientAddr → ToClient → Sent
  persist : Event → Sent
  notify_broadcast : Message → Sent
  notify_set_user_mode : SetUserMode → Sent

-- `Channel::get_user_permissions`
unfoldable pub get_user_permissions : Channel → HostMask → Permission
get_user_permissions c mask = unwrap_or (Permission.max (HostMaskMap.get c.permissions mask)) normal
