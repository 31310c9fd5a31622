-- ===== src/Tests/Samples.antt =====
-- Data for the tests.
use titanirc.Base.{ℕ, none, some, [], ◌∷◌, Text, text, starts_with, show_nat}
use titanirc.Irc.{IrcLibrary, Prefix, server_name, nickname}
use titanirc.HostMask.{HostMask}
use titanirc.HostMaskMap
use titanirc.HostMaskMap.{HostMaskMap}
use titanirc.Permission.{founder}
use titanirc.Connection.{DateTime, InitiatedConnection, no_mode, no_capability}
use titanirc.Channel.{Channel}
use titanirc.Channel.Handlers.Membership.{username_mask}
use titanirc.Messages.{ClientAddr, ChannelJoin, Gline}
use titanirc.Server.{Server, new_server}

abbrev pub shown : Prefix → Text
shown (server_name s) = s
shown (nickname n u h) = n

abbrev pub sample_irc : IrcLibrary
sample_irc = record {
  show_prefix = shown;
  prefix_from_str = λ s. server_name s;
  is_channel_name = λ s. starts_with b'#' s;
  source_nickname = λ m. none;
}

abbrev pub sample_time : DateTime → Text
sample_time t = show_nat t

abbrev pub person : Text → ℕ → InitiatedConnection
person name id = record {
  host = id;
  resolved_host = none;
  cloak = text "c";
  nick = name;
  user = name;
  mode = no_mode;
  real_name = name;
  user_id = id;
  capabilities = no_capability;
  away = none;
  at = 0;
}

abbrev pub alice : InitiatedConnection
alice = person (text "al") 1

abbrev pub bob : InitiatedConnection
bob = person (text "bo") 2

abbrev pub star : Text
star = text "*"

abbrev pub bob_mask : HostMask
bob_mask = record { nick = text "bo"; username = star; host = star }

-- Alice founded the channel, and Bob is in it.
abbrev pub sample_channel : Channel
sample_channel = record {
  name = text "#a";
  permissions = HostMaskMap.insert HostMaskMap.new (username_mask alice.user) founder;
  clients = (1, alice) ∷ (2, bob) ∷ [];
  topic = none;
  channel_id = 7;
}

abbrev pub joining_bob : ChannelJoin
joining_bob = record { channel_name = text "#a"; client = 2; connection = bob }

abbrev pub sample_server : Server
sample_server = record (new_server none) { clients = (1, alice) ∷ (2, bob) ∷ []; max_clients = 2 }

abbrev pub gline_bob : Gline
gline_bob = record { requester = alice; mask = bob_mask; duration = some 10; reason = none }

-- The addresses of the two.
abbrev pub al_addr : ClientAddr
al_addr = 1

abbrev pub bo_addr : ClientAddr
bo_addr = 2
