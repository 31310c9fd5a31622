-- ===== src/Acceptor/Admission.antt =====
-- Who gets from src/main.rs to the server, and what the others are told.
use titanirc.Base.{
  ◌≡◌, ◌≢◌, refl, sym, inl, inr, Bool, true, false, Option, none, some, List, [], ◌∷◌, ◌++◌, arith,
  Text, Has,
}
use mathlib.Core.Path.{subst}
use titanirc.Irc.{Message}
use titanirc.HostMaskMap.{get}
use titanirc.HostMaskMap.Globs.{IsRoot, matches}
use titanirc.Connection.{DateTime, SocketAddr, InitiatedConnection, to_host_mask}
use titanirc.Connection.Negotiation.{
  Environment, Item, Negotiated, initiated, closed_early, protocol_error, panicked, resolve,
  reserve, finish, negotiate_loop, start, negotiate_client_connection,
}
use titanirc.Connection.Proof.{IsProof}
use titanirc.Connection.Laws.{negotiate_client_connection-authenticates}
use titanirc.Messages.{ClientAddr, UserConnected, Gline}
use titanirc.Client.{Client}
use titanirc.Server.{Server}
use titanirc.Server.Responses.{ServerBan}
use titanirc.Server.Bans.{g_lined, ban_of, fits, handle_validate_connection, handle_gline}
use titanirc.Server.Bans.Enforcement.{validate_connection_cases, gline_rejects}
use titanirc.Acceptor.{error_message, new_client, admit, admit_negotiated, accept_connection}

module _ (env : Environment) where
  reserved :
      (c c' : InitiatedConnection) (r : Option Bool)
      → (reserve env c r).1 ≡ initiated c'
      → (r ≡ some true) × (c ≡ c')
  reserved c c' none e = absurd (cc e)
  reserved c c' (some false) e = absurd (cc e)
  reserved c c' (some true) e = (refl, cc e)

  finished :
      (host : SocketAddr) (r : List Message × Negotiated) (c : InitiatedConnection)
      → (finish env host r).1 ≡ initiated c
      → env.reserve_nick c.user_id c.nick ≡ some true
  finished host (out, initiated b) c e =
      let b' = resolve env host b in
      let (won, same) = reserved b' c (env.reserve_nick b'.user_id b'.nick) e in
      subst (λ (x : InitiatedConnection). env.reserve_nick x.user_id x.nick ≡ some true) same won
  finished host (out, closed_early) c e = absurd (cc e)
  finished host (out, protocol_error) c e = absurd (cc e)
  finished host (out, panicked) c e = absurd (cc e)

  -- Whoever is let in has reserved the nick.
  negotiate-reserves :
      (host : SocketAddr) (items : List Item) (c : InitiatedConnection)
      → (negotiate_client_connection env host items).1 ≡ initiated c
      → env.reserve_nick c.user_id c.nick ≡ some true
  unfolding negotiate_client_connection
  negotiate-reserves host items c e = finished host (negotiate_loop env (start env host) items) c e

  -- What it takes to be admitted.
  pub record IsAuthorized (s : Server) (client : Client) (msg : UserConnected) : Type 0 where
    pub proof : (m : Text) × IsProof env.credentials msg.connection.user msg.connection.user_id m
    pub owns_nick : env.reserve_nick msg.connection.user_id msg.connection.nick ≡ some true
    pub not_banned : get s.bans (to_host_mask msg.connection) ≡ []
    pub same : client.connection ≡ msg.connection
    pub no_channel : client.channels ≡ []

  admitted :
      (now : DateTime) (handle : ClientAddr) (s : Server) (written : List Message)
      (c : InitiatedConnection) (client : Client) (msg : UserConnected)
      → (admit now handle c written (handle_validate_connection s c)).started ≡ some (client, msg)
      → (get s.bans (to_host_mask c) ≡ [])
        × (client ≡ new_client now c)
        × (msg ≡ record { handle = handle; connection = c })
  admitted now handle s written c client msg e = elim (validate_connection_cases s c) [
    | inl (nothing, ok) ↦ (nothing, ground (arith, rw ok at e), ground (arith, rw ok at e))
    | inr (ban, h, rejected) ↦ absurd (cc (rw rejected at e))
  ]

  authorized :
      (now : DateTime) (handle : ClientAddr) (reason : Text) (s : Server) (host : SocketAddr)
      (items : List Item) (written : List Message) (end : Negotiated) (client : Client)
      (msg : UserConnected)
      → (negotiate_client_connection env host items).1 ≡ end
      → (admit_negotiated now handle reason s written end).started ≡ some (client, msg)
      → IsAuthorized s client msg
  authorized now handle reason s host items written closed_early client msg n e = absurd (cc e)
  authorized now handle reason s host items written protocol_error client msg n e = absurd (cc e)
  authorized now handle reason s host items written panicked client msg n e = absurd (cc e)
  authorized now handle reason s host items written (initiated c) client msg n e =
      let (nothing, mine, told) = admitted now handle s written c client msg e in
      let made : IsAuthorized s (new_client now c) (record { handle = handle; connection = c }) =
        record {
          proof = negotiate_client_connection-authenticates env host items c n;
          owns_nick = negotiate-reserves host items c n;
          not_banned = nothing;
          same = refl;
          no_channel = refl;
        } in
      subst (λ (x : Client). IsAuthorized s x msg) (sym mine)
        (subst (λ (x : UserConnected). IsAuthorized s (new_client now c) x) (sym told) made)

  -- Nobody becomes a client of the server without a password that verifies for the name and id of
  -- its connection, a nick that is reserved for that id, and a mask that no ban matches; and it
  -- starts in no channel.
  pub accept_connection-IsAuthorized :
      (now : DateTime) (handle : ClientAddr) (reason : Text) (s : Server) (host : SocketAddr)
      (items : List Item) (client : Client) (msg : UserConnected)
      → (accept_connection env now handle reason s host items).started ≡ some (client, msg)
      → IsAuthorized s client msg
  unfolding accept_connection
  accept_connection-IsAuthorized now handle reason s host items client msg e =
      authorized now handle reason s host items (negotiate_client_connection env host items).0 _
        client msg refl e

  told_why :
      (now : DateTime) (handle : ClientAddr) (reason : Text) (s : Server) (written : List Message)
      (end : Negotiated)
      → end ≢ panicked
      → (admit_negotiated now handle reason s written end).started ≡ none
      → (out : List Message) × (why : Text) × ((admit_negotiated now handle reason s written
            end).written
          ≡ out ++ error_message why ∷ [])
  told_why now handle reason s written closed_early p e = (written, _, refl)
  told_why now handle reason s written protocol_error p e = (written, _, refl)
  told_why now handle reason s written panicked p e = absurd (p refl)
  told_why now handle reason s written (initiated c) p e = elim (validate_connection_cases s c) [
    | inl (nothing, ok) ↦ absurd (cc (rw ok at e))
    | inr (ban, h, rejected) ↦ (written, g_lined ban.reason, rw rejected refl)
  ]

  -- Whoever is not admitted is told why in the last message, but for a panic of the negotiation.
  pub refused_told_why :
      (now : DateTime) (handle : ClientAddr) (reason : Text) (s : Server) (host : SocketAddr)
      (items : List Item)
      → (negotiate_client_connection env host items).1 ≢ panicked
      → (accept_connection env now handle reason s host items).started ≡ none
      → (out : List Message) × (why : Text) × ((accept_connection env now handle reason s host
            items).written
          ≡ out ++ error_message why ∷ [])
  unfolding accept_connection
  refused_told_why now handle reason s host items p e =
      told_why now handle reason s (negotiate_client_connection env host items).0 _ p e

  -- After a ban whose time of expiry is not past the last `DateTime`, whoever negotiates a
  -- connection that its mask matches is told the reason of a ban that the server holds and that
  -- matches the connection, and no client is started.
  pub gline_keeps_out :
      (now created : DateTime) (handle : ClientAddr) (reason : Text) (s : Server) (msg : Gline)
      (host : SocketAddr) (items : List Item) (c : InitiatedConnection)
      → IsRoot s.bans
      → (negotiate_client_connection env host items).1 ≡ initiated c
      → matches msg.mask (to_host_mask c) ≡ true
      → fits (ban_of msg created).expires ≡ true
      → (ban : ServerBan) × Has ban (get (handle_gline created s msg).0.bans (to_host_mask c))
        × (accept_connection env now handle reason (handle_gline created s msg).0 host items
            ≡ record {
              written =
                  (negotiate_client_connection env host items).0
                  ++ error_message (g_lined ban.reason) ∷ [];
              started = none;
            })
  unfolding accept_connection
  gline_keeps_out now created handle reason s msg host items c root n m fit =
      let (ban, h, rejected) = gline_rejects created s msg c root m fit in
      (ban, h, rw (n, admit_negotiated, rejected) refl)
