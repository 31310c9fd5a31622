-- ===== src/Connection/Negotiation.antt =====
-- `negotiate_client_connection` of src/connection.rs. The stream is the list of what it yields,
-- its end included; what is written to the client is the list of messages returned. Writes are
-- taken to succeed.
use titanirc.Base.{
  Bool, true, false, Option, none, some, List, [], ◌∷◌, ◌++◌, if◌then◌else◌, Text, text, text_eq,
  ◌==◌, split, join,
}
use titanirc.Irc.{IrcLibrary, Message, Command, CapSubCommand, bare, cap, ls}
use titanirc.Connection.{
  UserId, SocketAddr, DateTime, Capability, capability_or, capability_from_str,
  supported_capabilities, ConnectionRequest, no_request, InitiatedConnection, Hashing, new,
}
use titanirc.Connection.Sasl.{
  sasl_success, connection_success, nick_not_owned_by_user, acknowledged_capabilities,
}
use titanirc.Connection.Authenticate.{
  Credentials, Authenticate, AuthenticateResult, reply, done, error, closed, handle_authenticate,
}

pub record Environment : Type 0 where
  pub irc : IrcLibrary
  pub hashing : Hashing
  pub credentials : Credentials
  -- `Utc::now()`, at the message that completes the request
  pub now : DateTime
  -- the reverse lookup, `none` on a timeout, an error or an empty answer
  pub reverse_lookup : SocketAddr → Option Text
  -- the answer of `ReserveNick`, `none` for a mailbox error
  pub reserve_nick : UserId → Text → Option Bool

-- The loop's variables.
pub record Negotiation : Type 0 where
  pub request : ConnectionRequest
  pub authenticator : Authenticate

-- What one message leads to: the loop goes on, ends in an error, or panics on an `unwrap`.
pub data Handled : Type 0 where
  go_on : Negotiation → List Message → Handled
  fail : Handled
  panic : Handled

-- The loop over the arguments of `CAP REQ`.
abbrev pub request_capabilities : List Text → Capability → Bool → Capability × Bool
request_capabilities [] caps acked = (caps, acked)
request_capabilities (a ∷ rest) caps acked =
    if a == text "sasl"
    then request_capabilities rest caps acked
    else elim (capability_from_str a) [
      | some c ↦ request_capabilities rest (capability_or caps c) acked
      | none ↦ request_capabilities rest caps false
    ]

abbrev pub list_capabilities : Message
list_capabilities =
    bare (cap (some (text "*")) ls none (some (join (text " ") supported_capabilities)))

abbrev pub authenticated : Negotiation → Authenticate → AuthenticateResult → Handled
authenticated n a (reply m) = go_on (record n { authenticator = a }) (m ∷ [])
authenticated n a (done username user_id) =
    go_on
      (record {
        request = record n.request { user = some username; user_id = some user_id };
        authenticator = a;
      })
      (sasl_success ∷ [])
authenticated n a (error e) = fail
authenticated n a closed = panic

abbrev pub requested : Negotiation → Text → Handled
requested n arguments =
    let (caps, acked) = request_capabilities (split b' ' arguments) n.request.capabilities true in
    go_on (record n { request = record n.request { capabilities = caps } })
      (acknowledged_capabilities arguments acked ∷ [])

module _ (env : Environment) where
  -- The `match msg.command` of the loop.
  unfoldable pub handle_command : Negotiation → Command → Handled
  handle_command n (Command.pass p) = go_on n []
  handle_command n (Command.nick nick) =
      go_on (record n { request = record n.request { nick = some nick } }) []
  handle_command n (Command.user u mode real_name) =
      go_on (record n { request = record n.request { real_name = some real_name } }) []
  handle_command n (Command.cap target CapSubCommand.list a b) = go_on n (list_capabilities ∷ [])
  handle_command n (Command.cap target CapSubCommand.ls a b) = go_on n (list_capabilities ∷ [])
  handle_command n (Command.cap target CapSubCommand.req (some arguments) none) =
      requested n arguments
  handle_command n (Command.authenticate msg) =
      let (a, r) = handle_authenticate env.credentials n.authenticator msg in authenticated n a r
  handle_command n _ = go_on n []

-- An item of the stream: a message, or a protocol error.
pub data Item : Type 0 where
  message : Message → Item
  broken : Item

-- How the negotiation ends; `closed_early` is the `Ok(None)` of a closed stream.
pub data Negotiated : Type 0 where
  initiated : InitiatedConnection → Negotiated
  closed_early : Negotiated
  protocol_error : Negotiated
  panicked : Negotiated

-- The `match InitiatedConnection::new(..)` that ends a round: break, or the rounds that follow.
abbrev pub break_or :
    List Message
    → Option InitiatedConnection
    → List Message × Negotiated
    → List Message × Negotiated
break_or out (some connection) later = (out, initiated connection)
break_or out none (later, end) = (out ++ later, end)

module _ (env : Environment) where
  -- The loop, with what is written to the client.
  unfoldable pub negotiate_loop : Negotiation → List Item → List Message × Negotiated
  negotiate_loop n [] = ([], closed_early)
  negotiate_loop n (broken ∷ items) = ([], protocol_error)
  negotiate_loop n (message m ∷ items) = elim (handle_command env n m.command) [
    | fail ↦ ([], protocol_error)
    | panic ↦ ([], panicked)
    | go_on n' out ↦ break_or out (new env.hashing env.now n'.request) (negotiate_loop n' items)
  ]

  abbrev pub resolve : SocketAddr → InitiatedConnection → InitiatedConnection
  resolve host c = elim (env.reverse_lookup host) [
    | none ↦ c
    | some name ↦ record c { resolved_host = some name }
  ]

  -- What follows the loop for an initiated connection.
  abbrev pub reserve : InitiatedConnection → Option Bool → List Message × Negotiated
  reserve c none = ([], protocol_error)
  reserve c (some true) = ([], initiated c)
  reserve c (some false) = (nick_not_owned_by_user c.nick ∷ [], protocol_error)

  abbrev pub finish : SocketAddr → List Message × Negotiated → List Message × Negotiated
  finish host (out, initiated c) =
      let c' = resolve host c in
      let (later, end) = reserve c' (env.reserve_nick c'.user_id c'.nick) in
      (out ++ (connection_success env.irc c' ∷ later), end)
  finish host (out, end) = (out, end)

  abbrev pub start : SocketAddr → Negotiation
  start host = record {
    request = record no_request { host = some host };
    authenticator = record { selected_strategy = none; stopped = false };
  }

  unfoldable pub negotiate_client_connection : SocketAddr → List Item → List Message × Negotiated
  negotiate_client_connection host items = finish host (negotiate_loop (start host) items)
