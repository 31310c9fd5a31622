-- ===== src/Connection/Laws.antt =====
-- What the negotiation of src/connection.rs guarantees.
use titanirc.Base.{
  ◌≡◌, refl, ap, inl, inr, Bool, true, false, Option, none, some, List, [], ◌∷◌, arith, Text, text,
  text_eq, unwrap_or, Option-cases,
}
use mathlib.Core.Path.{subst}
use titanirc.Irc.{Message, Command, CapSubCommand}
use titanirc.Connection.{
  UserId, SocketAddr, InitiatedConnection, DateTime, Capability, initiate, new,
}
use titanirc.Connection.Sasl.{plain, sasl_aborted}
use titanirc.Connection.Authenticate.{
  Credentials, Authenticate, AuthenticateResult, reply, done, error, closed, handle_strategy,
  handle_authenticate,
}
use titanirc.Connection.Negotiation.{
  Environment, Negotiation, Handled, go_on, fail, panic, authenticated, handle_command, Item,
  message, broken, Negotiated, initiated, closed_early, protocol_error, panicked, break_or,
  negotiate_loop, start, finish, resolve, reserve, negotiate_client_connection,
}
use titanirc.Connection.Proof.{IsProof, handle_authenticate-IsProof}

-- `user` and `user_id` of a request are both unset, or come from one proof.
abbrev pub IsBacked : Credentials → Option Text → Option UserId → Type 0
IsBacked env none none = Unit
IsBacked env (some name) (some id) = (msg : Text) × IsProof env name id msg
IsBacked env none (some id) = ⊥
IsBacked env (some name) none = ⊥

module _ (env : Environment) where
  abbrev IsSafe : Negotiation → Type 0
  IsSafe n = IsBacked env.credentials n.request.user n.request.user_id

  abbrev GoesOnSafely : Handled → Type 0
  GoesOnSafely (go_on n out) = IsSafe n
  GoesOnSafely fail = Unit
  GoesOnSafely panic = Unit

  authenticated-IsSafe :
      (n : Negotiation) (a : Authenticate) (r : AuthenticateResult) (msg : Text)
      → IsSafe n
      → ((name : Text) (id : UserId) → r ≡ done name id → IsProof env.credentials name id msg)
      → GoesOnSafely (authenticated n a r)
  authenticated-IsSafe n a (reply m) msg safe proof = safe
  authenticated-IsSafe n a (done name id) msg safe proof = (msg, proof name id refl)
  authenticated-IsSafe n a (error e) msg safe proof = tt
  authenticated-IsSafe n a closed msg safe proof = tt

  cap-IsSafe :
      (n : Negotiation) (t : Option Text) (sub : CapSubCommand) (a b : Option Text)
      → IsSafe n
      → GoesOnSafely (handle_command env n (Command.cap t sub a b))
  unfolding handle_command
  cap-IsSafe n t CapSubCommand.list a b safe = safe
  cap-IsSafe n t CapSubCommand.ls a b safe = safe
  cap-IsSafe n t CapSubCommand.req (some x) none safe = safe
  cap-IsSafe n t CapSubCommand.req (some x) (some b) safe = safe
  cap-IsSafe n t CapSubCommand.req none b safe = safe
  cap-IsSafe n t CapSubCommand.ack a b safe = safe
  cap-IsSafe n t CapSubCommand.nak a b safe = safe
  cap-IsSafe n t CapSubCommand.other a b safe = safe

  -- Every command keeps the request backed.
  handle_command-IsSafe :
      (n : Negotiation) (c : Command) → IsSafe n → GoesOnSafely (handle_command env n c)
  unfolding handle_command
  handle_command-IsSafe n (Command.authenticate msg) safe =
      let r = handle_authenticate env.credentials n.authenticator msg in
      authenticated-IsSafe n r.0 r.1 msg safe
        λ name id e. handle_authenticate-IsProof env.credentials n.authenticator msg name id e
  handle_command-IsSafe n (Command.cap t sub a b) safe = cap-IsSafe n t sub a b safe
  handle_command-IsSafe n (Command.pass p) safe = safe
  handle_command-IsSafe n (Command.nick p) safe = safe
  handle_command-IsSafe n (Command.user u m r) safe = safe
  handle_command-IsSafe n _ safe = safe

  initiate-IsBacked :
      (now : DateTime) (h : Option SocketAddr) (n u r : Option Text) (i : Option UserId)
      (caps : Capability) (c : InitiatedConnection)
      → IsBacked env.credentials u i
      → initiate env.hashing now h n u r i caps ≡ some c
      → IsBacked env.credentials (some c.user) (some c.user_id)
  unfolding initiate
  initiate-IsBacked now (some h) (some n) (some u) (some r) (some i) caps c safe e =
      subst (λ (x : Text). IsBacked env.credentials (some x) (some c.user_id))
        (ap (λ (o : Option InitiatedConnection). (unwrap_or o c).user) e)
        (subst (λ (y : UserId). IsBacked env.credentials (some u) (some y))
          (ap (λ (o : Option InitiatedConnection). (unwrap_or o c).user_id) e) safe)
  initiate-IsBacked now h n u r i caps c safe e = cc

  -- What the loop ends in: if a connection, then one with a proof behind it.
  abbrev EndsSafely : Negotiated → Type 0
  EndsSafely (initiated c) = IsBacked env.credentials (some c.user) (some c.user_id)
  EndsSafely closed_early = Unit
  EndsSafely protocol_error = Unit
  EndsSafely panicked = Unit

  break_or-EndsSafely :
      (out : List Message) (o : Option InitiatedConnection) (later : List Message × Negotiated)
      → ((c : InitiatedConnection) → o ≡ some c → EndsSafely (initiated c))
      → EndsSafely later.1
      → EndsSafely (break_or out o later).1
  break_or-EndsSafely out (some c) later made rest = made c refl
  break_or-EndsSafely out none later made rest = rest

  round-EndsSafely :
      (m : Message) (items : List Item) (n : Negotiation) (h : Handled)
      → handle_command env n m.command ≡ h
      → GoesOnSafely h
      → ((n' : Negotiation) → IsSafe n' → EndsSafely (negotiate_loop env n' items).1)
      → EndsSafely (negotiate_loop env n (message m ∷ items)).1
  unfolding negotiate_loop new
  round-EndsSafely m items n fail e g rest = rw (negotiate_loop, e) tt
  round-EndsSafely m items n panic e g rest = rw (negotiate_loop, e) tt
  round-EndsSafely m items n (go_on n' out) e g rest =
      rw (negotiate_loop, e)
        (break_or-EndsSafely out (new env.hashing env.now n'.request) (negotiate_loop env n' items)
          (λ c made.
            initiate-IsBacked env.now n'.request.host n'.request.nick n'.request.user
              n'.request.real_name n'.request.user_id n'.request.capabilities c g made)
          (rest n' g))

  negotiate_loop-EndsSafely :
      (items : List Item) (n : Negotiation) → IsSafe n → EndsSafely (negotiate_loop env n items).1
  unfolding negotiate_loop
  negotiate_loop-EndsSafely [] n safe = tt
  negotiate_loop-EndsSafely (broken ∷ items) n safe = tt
  negotiate_loop-EndsSafely (message m ∷ items) n safe =
      round-EndsSafely m items n (handle_command env n m.command) refl
        (handle_command-IsSafe n m.command safe) (λ n' s. negotiate_loop-EndsSafely items n' s)

  resolve-IsBacked :
      (host : SocketAddr) (c : InitiatedConnection)
      → EndsSafely (initiated c)
      → EndsSafely (initiated (resolve env host c))
  resolve-IsBacked host c safe = elim (Option-cases (env.reverse_lookup host)) [
    | inl e ↦ rw (resolve, e) safe
    | inr (name, e) ↦ rw (resolve, e) safe
  ]

  reserved-EndsSafely :
      (c : InitiatedConnection) (r : Option Bool)
      → EndsSafely (initiated c)
      → EndsSafely (reserve env c r).1
  reserved-EndsSafely c none safe = tt
  reserved-EndsSafely c (some true) safe = safe
  reserved-EndsSafely c (some false) safe = tt

  finish-EndsSafely :
      (host : SocketAddr) (r : List Message × Negotiated)
      → EndsSafely r.1
      → EndsSafely (finish env host r).1
  finish-EndsSafely host (out, initiated c) safe =
      reserved-EndsSafely (resolve env host c) _ (resolve-IsBacked host c safe)
  finish-EndsSafely host (out, closed_early) safe = tt
  finish-EndsSafely host (out, protocol_error) safe = tt
  finish-EndsSafely host (out, panicked) safe = tt

  -- No client is let in without a password that verifies against the hash of the user whose name
  -- and id the connection then carries.
  pub negotiate_client_connection-authenticates :
      (host : SocketAddr) (items : List Item) (c : InitiatedConnection)
      → (negotiate_client_connection env host items).1 ≡ initiated c
      → (msg : Text) × IsProof env.credentials c.user c.user_id msg
  unfolding negotiate_client_connection
  negotiate_client_connection-authenticates host items c e = subst EndsSafely e (
      finish-EndsSafely host (negotiate_loop env (start env host) items)
        (negotiate_loop-EndsSafely items (start env host) tt))

  -- After a client has cancelled its authentication with `*`, its next `AUTHENTICATE` makes the
  -- negotiation panic on the mailbox error of the stopped actor.
  pub authenticate_after_cancel :
      (n : Negotiation) (msg : Text)
      → n.authenticator.stopped ≡ false
      → n.authenticator.selected_strategy ≡ some plain
      → (n' : Negotiation) × (out : List Message) × (handle_command env n
            (Command.authenticate (text "*"))
          ≡ go_on n' out)
        × (handle_command env n' (Command.authenticate msg) ≡ panic)
  unfolding handle_command handle_authenticate handle_strategy
  authenticate_after_cancel n msg running plain_selected = (
    record n { authenticator = record n.authenticator { stopped = true } },
    sasl_aborted ∷ [],
    ground arith,
    refl,
  )
