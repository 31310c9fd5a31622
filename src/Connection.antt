-- ===== src/Connection.antt =====
-- The connection of src/connection.rs: what a client has to bring, and the record that it gets.
-- The bit sets of `bitflags` are records of their flags. The cloak's SHA-256 and the printing of
-- an address are the parameter `Hashing`; an address is its number.
pub mod Sasl
pub mod Authenticate
pub mod Negotiation
pub mod Proof
pub mod Laws
use titanirc.Base.{
  ℕ, Bool, true, false, ◌||◌, Option, none, some, List, [], ◌∷◌, ◌++◌, if◌then◌else◌, Text, text,
  text_eq, ◌==◌,
}
use titanirc.Irc.{Prefix, nickname}
use titanirc.HostMask.{HostMask}

-- `UserId(i64)`, `SocketAddr` and a time, which are only handed on and compared.
abbrev pub UserId : Type 0
UserId = ℕ

abbrev pub SocketAddr : Type 0
SocketAddr = ℕ

abbrev pub DateTime : Type 0
DateTime = ℕ

pub record Capability : Type 0 where
  pub userhost_in_names : Bool
  pub server_time : Bool

-- `Capability::default`, and `|=`.
abbrev pub no_capability : Capability
no_capability = record { userhost_in_names = false; server_time = false }

abbrev pub capability_or : Capability → Capability → Capability
capability_or a b = record {
  userhost_in_names = a.userhost_in_names || b.userhost_in_names;
  server_time = a.server_time || b.server_time;
}

-- `Capability::from_str`
unfoldable pub capability_from_str : Text → Option Capability
capability_from_str s =
    if s == text "userhost-in-names"
    then some (record { userhost_in_names = true; server_time = false })
    else if s == text "server-time"
    then some (record { userhost_in_names = false; server_time = true })
    else none

-- `Capability::SUPPORTED`
abbrev pub supported_capabilities : List Text
supported_capabilities = text "userhost-in-names" ∷ text "server-time" ∷ text "sasl=PLAIN" ∷ []

pub record UserMode : Type 0 where
  pub wallops : Bool
  pub oper : Bool

abbrev pub no_mode : UserMode
no_mode = record { wallops = false; oper = false }

-- `Display` of `UserMode`
unfoldable pub show_user_mode : UserMode → Text
show_user_mode m =
    text "+" ++ ((if m.wallops then text "w" else []) ++ (if m.oper then text "o" else []))

pub record ConnectionRequest : Type 0 where
  pub host : Option SocketAddr
  pub nick : Option Text
  pub user : Option Text
  pub real_name : Option Text
  pub user_id : Option UserId
  pub capabilities : Capability

-- `ConnectionRequest::default`
abbrev pub no_request : ConnectionRequest
no_request = record {
  host = none;
  nick = none;
  user = none;
  real_name = none;
  user_id = none;
  capabilities = no_capability;
}

pub record InitiatedConnection : Type 0 where
  pub host : SocketAddr
  pub resolved_host : Option Text
  pub cloak : Text
  pub nick : Text
  pub user : Text
  pub mode : UserMode
  pub real_name : Text
  pub user_id : UserId
  pub capabilities : Capability
  pub away : Option Text
  pub at : DateTime

-- What the source calls of `sha2`, `hex` and `std::net`: the first twelve hexadecimal digits of
-- the salted hash of an address, and the address as text.
pub record Hashing : Type 0 where
  pub cloak_digits : SocketAddr → Text
  pub show_ip : SocketAddr → Text

module _ (hashing : Hashing) where
  unfoldable pub initiate :
      DateTime
      → Option SocketAddr
      → Option Text
      → Option Text
      → Option Text
      → Option UserId
      → Capability
      → Option InitiatedConnection
  initiate now (some h) (some n) (some u) (some r) (some i) caps = some (record {
    host = h;
    resolved_host = none;
    cloak = text "cloaked-" ++ hashing.cloak_digits h;
    nick = n;
    user = u;
    mode = no_mode;
    real_name = r;
    user_id = i;
    capabilities = caps;
    away = none;
    at = now;
  })
  initiate now _ _ _ _ _ caps = none

  -- `InitiatedConnection::new`; `none` is the `Err` that gives the request back.
  unfoldable pub new : DateTime → ConnectionRequest → Option InitiatedConnection
  unfolding initiate
  new now r = initiate now r.host r.nick r.user r.real_name r.user_id r.capabilities

unfoldable pub to_nick : InitiatedConnection → Prefix
to_nick c = nickname c.nick c.user c.cloak

unfoldable pub to_host_mask : InitiatedConnection → HostMask
to_host_mask c = record { nick = c.nick; username = c.user; host = c.cloak }
