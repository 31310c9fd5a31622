-- ===== src/Server/Store/Panics.antt =====
-- When a ban panics the actor of src/server.rs or that of src/persistence.rs.
use titanirc.Base.{
  ◌≡◌, ◌≤◌, ◌⊎◌, ◌++◌, refl, ◌↔◌, inl, inr, true, false, not, none, some, Option, if◌then◌else◌,
  is_some, List, [], ◌∷◌, Text, Bool-cases, HashMap, nat_eq, lookup, unwrap_or, arith,
}
use mathlib.Core.Option
use titanirc.Irc.{IrcLibrary}
use titanirc.HostMask.RoundTrip.{IsValid}
use titanirc.HostMaskMap
use titanirc.HostMaskMap.{HostMaskMap, nick}
use titanirc.HostMaskMap.Paths.{path}
use titanirc.HostMaskMap.Stored.{stored}
use titanirc.Connection.{UserId, DateTime, InitiatedConnection}
use titanirc.Messages.{ClientAddr, Event, Gline, server_ban}
use titanirc.Persistence.{BanRow}
use titanirc.Server.Responses.{ServerBan}
use titanirc.Persistence.Upkeep.{i64_bound, is_storable, are_storable}
use titanirc.Persistence.Mailbox.{with_database, persist_event, persist_events}
use titanirc.Server.{Server, Sent, persist}
use titanirc.Server.Bans.{kill_banned, ban_of, fits, handle_gline}
use titanirc.Server.Mailbox.{glining, step}
use titanirc.Server.Store.{Stored, events_of, panics, stored_step}
use titanirc.Server.Store.Sync.{is_barred, events_of-append, persist_ban_cases}
use titanirc.Server.Store.Steps.{IsStored, events_of-kill_banned}

abbrev row_of : Gline → DateTime → BanRow
row_of msg created = record {
  mask = msg.mask;
  requester = msg.requester.user_id;
  reason = unwrap_or msg.reason [];
  created = created;
  expires = (ban_of msg created).expires;
}

-- Where the time of expiry fits, the only event of a ban is its row.
gline_event :
    (created : DateTime) (s : Server) (msg : Gline)
    → fits (ban_of msg created).expires ≡ true
    → events_of (handle_gline created s msg).1
      ≡ server_ban msg.mask msg.requester.user_id
          (unwrap_or msg.reason [])
          created
          (ban_of msg created).expires
        ∷ []
unfolding handle_gline
gline_event created s msg fit =
    let ban = ban_of msg created in
    let bans = HostMaskMap.insert s.bans msg.mask ban in
    let sent : List Sent =
      persist
        (server_ban msg.mask msg.requester.user_id (unwrap_or msg.reason []) created ban.expires)
      ∷ [] in
    rw
      (
        handle_gline,
        fit,
        events_of-append (kill_banned bans msg s.clients) sent,
        events_of-kill_banned bans msg s.clients,
      )
      refl

panics-kill_banned :
    (bans : HostMaskMap ServerBan) (msg : Gline) (clients : HashMap ClientAddr InitiatedConnection)
    (e : Event)
    → panics (kill_banned bans msg clients ++ persist e ∷ []) ≡ false
panics-kill_banned bans msg [] e = refl
panics-kill_banned bans msg ((a, user) ∷ rest) e =
    ground (arith, panics-kill_banned bans msg rest e)

-- The handler of a ban panics when the time of expiry does not fit, and only then.
gline_handler_panics :
    (created : DateTime) (s : Server) (msg : Gline)
    → panics (handle_gline created s msg).1 ≡ not (fits (ban_of msg created).expires)
unfolding handle_gline
gline_handler_panics created s msg = elim (Bool-cases (fits (ban_of msg created).expires)) [
  | inr late ↦ rw (handle_gline, late) refl
  | inl fit ↦
      rw (handle_gline, fit)
        (panics-kill_banned (HostMaskMap.insert s.bans msg.mask (ban_of msg created)) msg s.clients
          _)
]

-- A time that does not fit is none that the database stores.
storable_fits :
    (created : DateTime) (expires : Option DateTime)
    → are_storable created expires ≡ true
    → fits expires ≡ true
storable_fits created none h = refl
storable_fits created (some t) h = ground arith

-- One of the times of a ban is no `i64`.
abbrev pub IsTooLate : DateTime → Option DateTime → Type 0
IsTooLate created expires =
    (i64_bound ≤ created) ⊎ ((t : DateTime) × (expires ≡ some t) × (i64_bound ≤ t))

are_storable_cases :
    (created : DateTime) (expires : Option DateTime)
    → (are_storable created expires ≡ false) ↔ IsTooLate created expires
are_storable_cases created none = (
  (λ h. inl (ground arith)),
  (λ o. elim o [ inl k ↦ ground arith | inr (t, e, k) ↦ absurd (cc e) ]),
)
are_storable_cases created (some t) = (
  λ h. elim (Bool-cases (is_storable created)) [
    | inr late ↦ inl (ground arith)
    | inl fine ↦ inr (t, refl, ground (arith, rw fine at h))
  ],
  λ o. elim o [
    | inl k ↦ ground arith
    | inr (u, e, k) ↦
        let same : t ≡ u = Option.some_inj.0 e in
        elim (Bool-cases (is_storable created)) [
          | inr late ↦ rw late refl
          | inl fine ↦ rw fine (ground (arith, same, k))
        ]
  ],
)

module _ (irc : IrcLibrary) (version : Text) (users : HashMap UserId Text) where
  -- The state after a ban that nothing panics on.
  abbrev after_gline : Stored → DateTime → Gline → Stored
  after_gline w created msg = record {
    server = (handle_gline created w.server msg).0;
    store = with_database w.store (record w.store.database {
      server_bans = w.store.database.server_bans ++ row_of msg created ∷ [];
    });
  }

  -- A ban between the server and the database.
  gline_step :
      (w : Stored) (now created : DateTime) (msg : Gline)
      → IsStored irc version users w
      → IsValid msg.mask
      → stored_step irc version w (now, glining created msg) ≡ (
          if is_barred users w.server.bans (row_of msg created)
          then none
          else some (after_gline w created msg))
  unfolding stored_step step persist_events persist_event
  gline_step w now created msg h valid =
      let died = gline_handler_panics created w.server msg in
      let taken =
        persist_ban_cases users w.server.bans w.store (row_of msg created) valid h.synced in
      elim (Bool-cases (fits (ban_of msg created).expires)) [
        | inl fit ↦
            let event = gline_event created w.server msg fit in
            elim (Bool-cases (is_barred users w.server.bans (row_of msg created))) [
              | inl y ↦
                  rw (stored_step, step, died, fit, event, persist_events, persist_event, taken, y)
                    refl
              | inr n ↦
                  rw (stored_step, step, died, fit, event, persist_events, persist_event, taken, n)
                    refl
            ]
        | inr late ↦ elim (Bool-cases (are_storable created (ban_of msg created).expires)) [
          | inl y ↦ absurd (cc (late, storable_fits created (ban_of msg created).expires y))
          | inr n ↦ rw (stored_step, step, died, late, n) refl
        ]
      ]

  -- Where a sound server has the bans of the database, a ban of a valid mask panics the server or the
  -- database exactly when there is a ban under the same mask already, or its requester is no user of
  -- the database, or the number of nanoseconds of its time of creation or of its time of expiry is
  -- no `i64`.
  pub gline_panics_iff :
      (w : Stored) (now created : DateTime) (msg : Gline)
      → IsStored irc version users w
      → IsValid msg.mask
      → (stored_step irc version w (now, glining created msg) ≡ none) ↔ (
          (is_some (stored w.server.bans (path nick msg.mask)) ≡ true)
          ⊎ (is_some (lookup msg.requester.user_id users) ≡ false)
          ⊎ IsTooLate created (ban_of msg created).expires)
  gline_panics_iff w now created msg h valid =
      let late = are_storable_cases created (ban_of msg created).expires in
      let after = gline_step w now created msg h valid in
      elim (Bool-cases (are_storable created (ban_of msg created).expires)) [
        | inr n ↦ ((λ _. inr (inr (late.0 n))), (λ _. rw n at after))
        | inl y ↦ elim (Bool-cases (is_some (stored w.server.bans (path nick msg.mask)))) [
          | inl y' ↦ ((λ _. inl y'), (λ _. rw (y, y') at after))
          | inr n' ↦ elim (Bool-cases (is_some (lookup msg.requester.user_id users))) [
            | inr stranger ↦ ((λ _. inr (inl stranger)), (λ _. rw (y, n', stranger) at after))
            | inl known ↦
                let lives = rw (y, n', known) at after in
                (
                  (λ z. absurd (cc (lives, z))),
                  (λ o. elim o [
                    | inl q ↦ absurd (cc (n', q))
                    | inr (inl q) ↦ absurd (cc (known, q))
                    | inr (inr q) ↦ absurd (cc (y, late.1 q))
                  ]),
                )
          ]
        ]
      ]
