-- ===== src/Acceptor.antt =====
-- src/main.rs: the start of the actors, and what becomes of a connection that is accepted. The
-- codec of the stream, the choice of a thread and the logging are left out; writes are taken to
-- succeed.
pub mod Admission
use titanirc.Base.{
  ℕ, zero, suc, ◌+◌, Bool, Option, none, some, List, [], ◌∷◌, ◌++◌, Text, text, nat_beq,
  if◌then◌else◌, false, HashMap,
}
use titanirc.Irc.{Message, Command, bare}
use titanirc.Connection.{DateTime, SocketAddr, InitiatedConnection}
use titanirc.Connection.Authenticate.{Bytes}
use titanirc.Connection.Negotiation.{
  Environment, Item, Negotiated, initiated, closed_early, protocol_error, panicked,
  negotiate_client_connection,
}
use titanirc.Config.{Args, Config}
use titanirc.Messages.{ClientAddr, UserConnected}
use titanirc.Client.{Client}
use titanirc.Persistence.{Persistence, Database}
use titanirc.Server.{Server, new_server}
use titanirc.Server.Responses.{ConnectionValidated, allowed, reject}
use titanirc.Server.Bans.{handle_validate_connection}

-- The level of the log, by the number of `-v`s.
abbrev pub log_level : ℕ → Text
log_level verbose =
    if nat_beq verbose 1
    then text "debug"
    else if nat_beq verbose 2
    then text "trace"
    else text "info"

-- The actors that `main` starts, with the threads of the channels and of the clients.
pub record Started : Type 0 where
  pub persistence : Persistence
  pub server : Server
  pub channel_arbiters : List ℕ
  pub client_arbiters : List ℕ

-- `build_arbiters`; `first` is the number of the first new thread.
abbrev pub build_arbiters : ℕ → ℕ → List ℕ
build_arbiters first zero = []
build_arbiters first (suc count) = first ∷ build_arbiters (first + 1) count

-- `main`, with the database that it has connected to.
unfoldable pub start_actors : Config → Database → Started
start_actors config database = record {
  persistence = record {
    database = database;
    max_message_replay_since = config.max_message_replay_since;
    last_seen_clock = 0;
  };
  server = new_server config.motd;
  channel_arbiters = build_arbiters 0 config.channel_threads;
  client_arbiters = build_arbiters config.channel_threads config.client_threads;
}

-- What a connection leads to: what is written to it, and the actor that is started for it, with
-- what the server is then told.
pub record Admitted : Type 0 where
  pub written : List Message
  pub started : Option (Client × UserConnected)

abbrev pub error_message : Text → Message
error_message reason = bare (Command.error reason)

-- The client's actor as it starts at the time `now`.
abbrev pub new_client : DateTime → InitiatedConnection → Client
new_client now connection = record {
  connection = connection;
  channels = [];
  last_active = now;
  graceful_shutdown = false;
  server_leave_reason = none;
}

-- The answer of the server to `ValidateConnection`.
abbrev pub admit :
    DateTime → ClientAddr → InitiatedConnection → List Message → ConnectionValidated → Admitted
admit now handle connection written (reject reason) = record {
  written = written ++ error_message reason ∷ [];
  started = none;
}
admit now handle connection written allowed = record {
  written = written;
  started = some (new_client now connection, record { handle = handle; connection = connection });
}

-- What follows the negotiation, by its result; `reason` is the text of a protocol error, and
-- `handle` the address of the actor that may be started. A panic ends the task.
abbrev pub admit_negotiated :
    DateTime → ClientAddr → Text → Server → List Message → Negotiated → Admitted
admit_negotiated now handle reason s written closed_early = record {
  written = written ++ error_message (text "You must use SASL to connect to this server") ∷ [];
  started = none;
}
admit_negotiated now handle reason s written protocol_error = record {
  written = written ++ error_message reason ∷ [];
  started = none;
}
admit_negotiated now handle reason s written panicked = record { written = written; started = none }
admit_negotiated now handle reason s written (initiated connection) =
    admit now handle connection written (handle_validate_connection s connection)

module _ (env : Environment) where
  -- The task that `start_tcp_acceptor_loop` spawns for a connection from `host` that yields
  -- `items`. The server is `s` when it is asked.
  unfoldable pub accept_connection :
      DateTime → ClientAddr → Text → Server → SocketAddr → List Item → Admitted
  accept_connection now handle reason s host items =
      let (written, end) = negotiate_client_connection env host items in
      admit_negotiated now handle reason s written end
