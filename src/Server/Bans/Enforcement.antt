-- ===== src/Server/Bans/Enforcement.antt =====
-- What the server-wide bans of src/server.rs keep out.
use titanirc.Base.{
  ◌≡◌, refl, ◌⊎◌, inl, inr, true, false, some, List, [], ◌∷◌, arith, unwrap_or, is_empty, first,
  Has, Has-append_left, Has-append_right, Has-append, Bool-cases, lookup, HashMap, nat_eq,
  nat_beq_iff,
}
use titanirc.HostMaskMap.{HostMaskMap, get, insert}
use titanirc.HostMaskMap.Globs.{IsRoot, matches, get-insert, get-insert_inv}
use titanirc.Connection.{DateTime, InitiatedConnection, to_host_mask}
use titanirc.Messages.{ClientAddr, ToClient, kill_user, server_ban, Gline}
use titanirc.Server.{Server, to_client, persist}
use titanirc.Server.Responses.{ServerBan, allowed, reject}
use titanirc.Server.Bans.{
  g_lined, validated, handle_validate_connection, ban_of, fits, kill_by, kill_banned, handle_gline,
}

Has-not_empty : {A : Type 0} (a : A) (xs : List A) → Has a xs → is_empty xs ≡ false
Has-not_empty a [] h = elim h [ ]
Has-not_empty a (x ∷ xs) h = refl

first-validated :
    (bans : List ServerBan)
    → is_empty bans ≡ false
    → (ban : ServerBan) × Has ban bans × (validated (first bans) ≡ reject (g_lined ban.reason))
first-validated [] e = absurd (cc e)
first-validated (b ∷ bans) e = (b, inl refl, refl)

-- A connection is let in exactly when no stored ban matches it, and else it is told the reason of
-- one that does.
pub validate_connection_cases :
    (s : Server) (conn : InitiatedConnection)
    → ((get s.bans (to_host_mask conn) ≡ []) × (handle_validate_connection s conn ≡ allowed))
      ⊎ ((ban : ServerBan) × Has ban (get s.bans (to_host_mask conn))
          × (handle_validate_connection s conn ≡ reject (g_lined ban.reason)))
unfolding handle_validate_connection
validate_connection_cases s conn = go (get s.bans (to_host_mask conn))
  where
    go :
        (bans : List ServerBan)
        → ((bans ≡ []) × (validated (first bans) ≡ allowed))
          ⊎ ((ban : ServerBan) × Has ban bans
              × (validated (first bans) ≡ reject (g_lined ban.reason)))
    go [] = inl (refl, refl)
    go (b ∷ bans) = inr (b, inl refl, refl)

-- After a ban whose time of expiry fits, a connection that its mask matches is rejected.
pub gline_rejects :
    (created : DateTime) (s : Server) (msg : Gline) (conn : InitiatedConnection)
    → IsRoot s.bans
    → matches msg.mask (to_host_mask conn) ≡ true
    → fits (ban_of msg created).expires ≡ true
    → (ban : ServerBan) × Has ban (get (handle_gline created s msg).0.bans (to_host_mask conn))
      × (handle_validate_connection (handle_gline created s msg).0 conn
          ≡ reject (g_lined ban.reason))
unfolding handle_validate_connection handle_gline
gline_rejects created s msg conn root e fit =
    let bans = get (insert s.bans msg.mask (ban_of msg created)) (to_host_mask conn) in
    rw (handle_gline, fit)
      (first-validated bans (
        Has-not_empty (ban_of msg created) bans
          (get-insert s.bans msg.mask (to_host_mask conn) (ban_of msg created) root e)))

Has-kill_banned :
    (bans : HostMaskMap ServerBan) (msg : Gline) (clients : HashMap ClientAddr InitiatedConnection)
    (a : ClientAddr) (user : InitiatedConnection)
    → lookup a clients ≡ some user
    → is_empty (get bans (to_host_mask user)) ≡ false
    → Has (to_client a (kill_user (kill_by msg user))) (kill_banned bans msg clients)
Has-kill_banned bans msg [] a user e h = absurd (cc e)
Has-kill_banned bans msg ((b, other) ∷ rest) a user e h = ground (
  arith,
  nat_beq_iff b a,
  λ (f : lookup a rest ≡ some user). Has-kill_banned bans msg rest a user f h,
)

-- A ban whose time of expiry is not past the last `DateTime` kills every client that its mask
-- matches, and the database is sent its row.
pub gline_kills :
    (created : DateTime) (s : Server) (msg : Gline) (a : ClientAddr) (user : InitiatedConnection)
    → IsRoot s.bans
    → lookup a s.clients ≡ some user
    → matches msg.mask (to_host_mask user) ≡ true
    → fits (ban_of msg created).expires ≡ true
    → Has (to_client a (kill_user (kill_by msg user))) (handle_gline created s msg).1
      × Has
          (persist (
            server_ban msg.mask msg.requester.user_id
              (unwrap_or msg.reason [])
              created
              (ban_of msg created).expires))
          (handle_gline created s msg).1
unfolding handle_gline
gline_kills created s msg a user root e m fit =
    let bans = insert s.bans msg.mask (ban_of msg created) in
    let hit =
      Has-not_empty (ban_of msg created) (get bans (to_host_mask user))
        (get-insert s.bans msg.mask (to_host_mask user) (ban_of msg created) root m) in
    rw (handle_gline, fit)
      (
        Has-append_left _ (kill_banned bans msg s.clients) _
            (Has-kill_banned bans msg s.clients a user e hit),
        Has-append_right _ (kill_banned bans msg s.clients) _ (inl refl),
      )

kill_banned_inv :
    (bans : HostMaskMap ServerBan) (msg : Gline) (clients : HashMap ClientAddr InitiatedConnection)
    (a : ClientAddr) (t : ToClient)
    → Has (to_client a t) (kill_banned bans msg clients)
    → (user : InitiatedConnection) × Has (a, user) clients
      × (t ≡ kill_user (kill_by msg user))
      × (is_empty (get bans (to_host_mask user)) ≡ false)
kill_banned_inv bans msg [] a t h = elim h [ ]
kill_banned_inv bans msg ((b, other) ∷ rest) a t h =
    elim (Bool-cases (is_empty (get bans (to_host_mask other)))) [
      | inl empty ↦
          let (user, k, e, n) = kill_banned_inv bans msg rest a t (rw empty at h) in
          (user, inr k, e, n)
      | inr hit ↦ elim (rw hit at h) [
        | inl e ↦ (other, inl (ground arith), ground arith, hit)
        | inr h' ↦ let (user, k, e, n) = kill_banned_inv bans msg rest a t h' in (user, inr k, e, n)
      ]
    ]

-- A ban tells nobody anything but kills, and only clients that a stored ban or its own mask
-- matches.
pub gline_kills_only :
    (created : DateTime) (s : Server) (msg : Gline) (a : ClientAddr) (t : ToClient)
    → IsRoot s.bans
    → Has (to_client a t) (handle_gline created s msg).1
    → (user : InitiatedConnection) × Has (a, user) s.clients
      × (t ≡ kill_user (kill_by msg user))
      × ((matches msg.mask (to_host_mask user) ≡ true)
          ⊎ ((ban : ServerBan) × Has ban (get s.bans (to_host_mask user))))
unfolding handle_gline
gline_kills_only created s msg a t root h =
    let ban = ban_of msg created in
    let bans = insert s.bans msg.mask ban in
    elim (Bool-cases (fits ban.expires)) [
      | inr late ↦ absurd (elim (rw (handle_gline, late) at h) [ inl e ↦ cc e | inr never ↦ never ])
      | inl fit ↦
          elim (Has-append (to_client a t) (kill_banned bans msg s.clients) _
            (rw (handle_gline, fit) at h)) [
              | inr late ↦ elim late [ inl e ↦ absurd (cc e) | inr never ↦ absurd never ]
              | inl h' ↦
                  let (user, k, e, n) = kill_banned_inv bans msg s.clients a t h' in
                  let (b, found, _) = first-validated (get bans (to_host_mask user)) n in
                  (
                    user,
                    k,
                    e,
                    elim (get-insert_inv s.bans msg.mask (to_host_mask user) ban b root found) [
                      | inl (_, m) ↦ inl m
                      | inr old ↦ inr (b, old)
                    ],
                  )
            ]
    ]
