-- ===== src/Config.antt =====
-- The configuration of src/config.rs. The parser of `toml` and the reading of a file are arguments.
use titanirc.Base.{ℕ, ◌*◌, Option, none, some, Text, unwrap_or}
use titanirc.Connection.{SocketAddr}
use titanirc.Messages.{Duration}

-- `struct Config`
pub record Config : Type 0 where
  pub listen_address : SocketAddr
  pub database_uri : Text
  pub motd : Option Text
  pub max_message_replay_since : Duration
  pub client_threads : ℕ
  pub channel_threads : ℕ

-- `struct Args`
pub record Args : Type 0 where
  pub verbose : ℕ
  pub config : Config

abbrev pub default_client_threads : ℕ
default_client_threads = 1

abbrev pub default_channel_threads : ℕ
default_channel_threads = 1

-- `Duration::from_secs`, in the unit of times.
abbrev pub from_secs : ℕ → Duration
from_secs s = s * 1000000000

abbrev pub default_max_message_replay_since : Duration
default_max_message_replay_since = from_secs (24 * 60 * 60)

-- The keys of a file as `toml` reads them; `none` is a key that the file leaves out.
pub record ConfigKeys : Type 0 where
  pub listen_address : Option SocketAddr
  pub database_uri : Option Text
  pub motd : Option Text
  pub max_message_replay_since : Option Duration
  pub client_threads : Option ℕ
  pub channel_threads : Option ℕ

-- `Deserialize` of `Config`: the two keys without a default must be there.
unfoldable pub deserialize : ConfigKeys → Option Config
deserialize keys = elim keys.listen_address [
  | none ↦ none
  | some listen_address ↦ elim keys.database_uri [
    | none ↦ none
    | some database_uri ↦ some (record {
      listen_address = listen_address;
      database_uri = database_uri;
      motd = keys.motd;
      max_message_replay_since =
          unwrap_or keys.max_message_replay_since default_max_message_replay_since;
      client_threads = unwrap_or keys.client_threads default_client_threads;
      channel_threads = unwrap_or keys.channel_threads default_channel_threads;
    })
  ]
]

-- The `io::Error`s of `FromStr`.
pub data ConfigError : Type 0 where
  not_read invalid_data : ConfigError

pub data Loaded : Type 0 where
  ok : Config → Loaded
  err : ConfigError → Loaded

module _ (read_to_string : Text → Option Text) (toml : Text → Option ConfigKeys) where
  abbrev pub parsed : Option ConfigKeys → Loaded
  parsed none = err invalid_data
  parsed (some keys) = elim (deserialize keys) [ none ↦ err invalid_data | some c ↦ ok c ]

  -- `FromStr` of `Config`: the configuration that stands in the file.
  unfoldable pub from_str : Text → Loaded
  from_str path = elim (read_to_string path) [
    | none ↦ err not_read
    | some contents ↦ parsed (toml contents)
  ]
