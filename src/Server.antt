-- ===== src/Server.antt =====
-- The actor of src/server.rs, handler by handler. A handler returns the state that it leaves, what
-- it sends, in order, and its answer. The arbiters of threads, the logging, and the configuration
-- but for the message of the day are left out.
pub mod Responses
pub mod Handlers
pub mod Queries
pub mod Protocol
pub mod Addressed
pub mod Bans
pub mod Mailbox
pub mod Routing
pub mod Store
use titanirc.Base.{ℕ, Option, none, List, [], HashMap, Text}
use titanirc.HostMaskMap
use titanirc.HostMaskMap.{HostMaskMap}
use titanirc.Connection.{InitiatedConnection}
use titanirc.Messages.{ClientAddr, ChannelAddr, ToClient, Event, ChannelJoin}
use titanirc.Server.Responses.{ServerBan}

-- `struct Server`
pub record Server : Type 0 where
  pub channels : HashMap Text ChannelAddr
  pub clients : HashMap ClientAddr InitiatedConnection
  pub max_clients : ℕ
  pub motd : Option Text
  pub bans : HostMaskMap ServerBan

-- The server that src/main.rs starts.
abbrev pub new_server : Option Text → Server
new_server motd = record {
  channels = [];
  clients = [];
  max_clients = 0;
  motd = motd;
  bans = HostMaskMap.new;
}

-- What the server sends: to a client, to the database, a new channel under its name, and a join to
-- a channel; or the panic of a handler, which sends nothing else.
pub data Sent : Type 0 where
  to_client : ClientAddr → ToClient → Sent
  persist : Event → Sent
  start_channel : ChannelAddr → Text → Sent
  forward_join : ChannelAddr → ChannelJoin → Sent
  panic : Sent
