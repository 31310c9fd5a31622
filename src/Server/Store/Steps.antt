-- ===== src/Server/Store/Steps.antt =====
-- What every message to the server of src/server.rs does to its bans and to those of the database.
use titanirc.Base.{
  Ensures, ◌≡◌, refl, inl, inr, true, Option, none, some, is_some, List, [], ◌∷◌, map, arith,
  lookup, nat_eq, text_eq, Text, All, Bool-cases, Option-cases, HashMap, unwrap_or, keys,
}
use mathlib.Core.Option
use titanirc.Irc.{IrcLibrary, Message}
use titanirc.HostMask
use titanirc.HostMask.{HostMask}
use titanirc.HostMask.RoundTrip.{IsValid, try_from-IsValid}
use titanirc.HostMaskMap
use titanirc.HostMaskMap.{HostMaskMap, Key, nick, iter, get}
use titanirc.HostMaskMap.Globs.{IsRoot}
use titanirc.Connection.{UserId, DateTime, InitiatedConnection}
use titanirc.Messages.{
  ClientAddr, ChannelAddr, ToClient, broadcast, nick_change, Event, Gline, UserConnected,
  ChannelJoin, UserNickChange, ClientAway, server_ban,
}
use titanirc.Persistence.{Persistence}
use titanirc.Persistence.Mailbox.{persist_event, persist_events}
use titanirc.Server.{Server, Sent, to_client, persist}
use titanirc.Server.Responses.{motd_messages, ServerBan}
use titanirc.Server.Handlers.{
  handle_server_disconnect, handle_user_connected, handle_channel_join, handle_user_nick_change,
  handle_server_away,
}
use titanirc.Server.Bans.{
  expired_masks, push_mask, is_expired, kill_banned, ban_of, fits, handle_gline,
  handle_remove_gline, remove_expired_bans,
}
use titanirc.Server.Mailbox.{
  Request, connecting, disconnecting, joining, changing_nick, going_away, glining, unglining,
  loading, expiring, HasValidMasks, IsSound, step, step-IsSound,
}
use titanirc.Server.Store.{Stored, events_of, panics, stored_step, stored_run}
use titanirc.Server.Store.Sync.{
  IsSynced, events_of-append, ban-IsSynced, remove-IsSynced, remove_masks-IsSynced,
}

-- What the server may be asked: masks are parsed ones, whoever bans is a user of the database, and
-- the bans are loaded only at the start.
abbrev pub IsAsked : HashMap UserId Text → Request → Type 0
IsAsked users (glining now msg) =
    IsValid msg.mask × (is_some (lookup msg.requester.user_id users) ≡ true)
IsAsked users (unglining mask) = IsValid mask
IsAsked users (loading answer) = ⊥
IsAsked users _ = Unit

asked-HasValidMasks :
    (users : HashMap UserId Text) (r : Request) → IsAsked users r → HasValidMasks r
asked-HasValidMasks users (connecting m) a = tt
asked-HasValidMasks users (disconnecting m) a = tt
asked-HasValidMasks users (joining c m) a = tt
asked-HasValidMasks users (changing_nick m) a = tt
asked-HasValidMasks users (going_away m) a = tt
asked-HasValidMasks users (glining now m) a = a.0
asked-HasValidMasks users (unglining m) a = tt
asked-HasValidMasks users (loading m) a = absurd a
asked-HasValidMasks users (expiring now) a = tt

pushed-AreValid :
    (q : HostMask.Parsed) (ms : List HostMask)
    → ((m : HostMask) → q ≡ HostMask.ok m → IsValid m)
    → All (λ m. IsValid m) ms
    → All (λ m. IsValid m) (push_mask q ms)
pushed-AreValid (HostMask.err x) ms v h = h
pushed-AreValid (HostMask.ok m) ms v h = (v m refl, h)

expired_masks-AreValid :
    (now : DateTime) (entries : List (Text × ServerBan))
    → All (λ m. IsValid m) (expired_masks now entries)
expired_masks-AreValid now [] = tt
expired_masks-AreValid now ((t, ban) ∷ rest) =
    let later = expired_masks-AreValid now rest in
    elim (Bool-cases (is_expired now ban)) [
      | inl e ↦ rw e (
          pushed-AreValid (HostMask.try_from t) (expired_masks now rest) (try_from-IsValid t) later)
      | inr e ↦ rw e later
    ]

-- What is sent to clients only.
events_of-tell :
    {A : Type 0} (f : A → ClientAddr × ToClient) (xs : List A)
    → events_of (map (λ (x : A). to_client (f x).0 (f x).1) xs) ≡ []
events_of-tell f [] = refl
events_of-tell f (x ∷ xs) = events_of-tell f xs

pub events_of-kill_banned :
    (bans : HostMaskMap ServerBan) (msg : Gline) (clients : HashMap ClientAddr InitiatedConnection)
    → events_of (kill_banned bans msg clients) ≡ []
events_of-kill_banned bans msg [] = refl
events_of-kill_banned bans msg ((a, user) ∷ rest) =
    ground (arith, events_of-kill_banned bans msg rest)

away_bans : (s : Server) (m : ClientAway) → (handle_server_away s m).bans ≡ s.bans
unfolding handle_server_away
away_bans s m = ground arith

single_event :
    (now : DateTime) (p : Persistence) (e : Event) (P : Persistence → Type 0)
    → Ensures P (persist_event now p e)
    → Ensures P (persist_events now p (e ∷ []))
unfolding persist_events
single_event now p e P h = elim (Option-cases (persist_event now p e)) [
  | inl n ↦ rw (persist_events, n) tt
  | inr (p', y) ↦ rw (persist_events, y) (rw y at h)
]

module _ (irc : IrcLibrary) (version : Text) (users : HashMap UserId Text) where
  -- A sound server beside a database with the same bans.
  pub record IsStored (w : Stored) : Type 0 where
    pub sound : IsSound w.server
    pub synced : IsSynced users w.server.bans w.store

  connect_events :
      (s : Server) (m : UserConnected) → events_of (handle_user_connected irc version s m).1 ≡ []
  unfolding handle_user_connected
  connect_events s m =
      events_of-tell (λ (x : Message). (m.handle, broadcast x))
        (motd_messages s.motd m.connection.nick)

  join_events :
      (s : Server) (a : ChannelAddr) (m : ChannelJoin)
      → (events_of (handle_channel_join s a m).1 ≡ [])
        × ((handle_channel_join s a m).0.bans ≡ s.bans)
  unfolding handle_channel_join
  join_events s a m = ground arith

  nick_events :
      (s : Server) (m : UserNickChange)
      → (events_of (handle_user_nick_change s m).1 ≡ [])
        × ((handle_user_nick_change s m).0.bans ≡ s.bans)
  unfolding handle_user_nick_change
  nick_events s m =
      (events_of-tell (λ (a : ClientAddr). (a, nick_change m)) (keys s.clients), ground arith)

  with_store :
      (s : Server) (o : Option Persistence)
      → IsSound s
      → Ensures (IsSynced users s.bans) o
      → Ensures IsStored (Option.map (λ (p : Persistence). record { server = s; store = p }) o)
  with_store s none sound h = tt
  with_store s (some p) sound h = record { sound = sound; synced = h }

  -- A request that leaves the bans alone sends no event of theirs.
  quiet :
      (now : DateTime) (p : Persistence) (events : List Event) (old bans : HostMaskMap ServerBan)
      → events ≡ []
      → bans ≡ old
      → IsSynced users old p
      → Ensures (IsSynced users bans) (persist_events now p events)
  unfolding persist_events
  quiet now p events old bans e same h = rw (e, same) h

  gline_events :
      (now created : DateTime) (s : Server) (msg : Gline) (p : Persistence)
      → IsRoot s.bans
      → IsValid msg.mask
      → is_some (lookup msg.requester.user_id users) ≡ true
      → IsSynced users s.bans p
      → Ensures
          (IsSynced users (handle_gline created s msg).0.bans)
          (persist_events now p (events_of (handle_gline created s msg).1))
  unfolding handle_gline persist_events
  gline_events now created s msg p root valid known h =
      let ban = ban_of msg created in
      let bans = HostMaskMap.insert s.bans msg.mask ban in
      let sent : List Sent =
        persist
          (server_ban msg.mask msg.requester.user_id (unwrap_or msg.reason []) created ban.expires)
        ∷ [] in
      elim (Bool-cases (fits ban.expires)) [
        | inr late ↦ rw (handle_gline, late) h
        | inl fit ↦
            rw
              (
                handle_gline,
                fit,
                events_of-append (kill_banned bans msg s.clients) sent,
                events_of-kill_banned bans msg s.clients,
              )
              (single_event now p _ (IsSynced users bans) (
                ban-IsSynced users now s.bans p
                  (record {
                    mask = msg.mask;
                    requester = msg.requester.user_id;
                    reason = unwrap_or msg.reason [];
                    created = created;
                    expires = ban.expires;
                  })
                  ban root valid known h))
      ]

  -- Whatever the server is asked, its bans and those of the database stay the same.
  step_events :
      (w : Stored) (now : DateTime) (r : Request)
      → IsAsked users r
      → IsStored w
      → Ensures
          (IsSynced users (step irc version w.server r).0.bans)
          (persist_events now w.store (events_of (step irc version w.server r).1))
  unfolding step handle_remove_gline remove_expired_bans persist_events persist_event
      handle_user_connected handle_server_disconnect
  step_events w now (connecting m) a h =
      quiet now w.store _ w.server.bans _ (connect_events w.server m) refl h.synced
  step_events w now (disconnecting m) a h = h.synced
  step_events w now (joining c m) a h =
      let (e, b) = join_events w.server c m in quiet now w.store _ w.server.bans _ e b h.synced
  step_events w now (changing_nick m) a h =
      let (e, b) = nick_events w.server m in quiet now w.store _ w.server.bans _ e b h.synced
  step_events w now (going_away m) a h =
      quiet now w.store [] w.server.bans _ refl (away_bans w.server m) h.synced
  step_events w now (glining created m) a h =
      gline_events now created w.server m w.store h.sound.rooted a.0 a.1 h.synced
  step_events w now (unglining m) a h =
      remove-IsSynced users w.server.bans w.store m h.sound.rooted a h.synced
  step_events w now (loading m) a h = absurd a
  step_events w now (expiring at) a h =
      remove_masks-IsSynced users now (expired_masks at (iter w.server.bans)) w.server.bans w.store
        h.sound.rooted (expired_masks-AreValid at (iter w.server.bans)) h.synced

  step-IsStored :
      (w : Stored) (r : DateTime × Request)
      → IsAsked users r.1
      → IsStored w
      → Ensures IsStored (stored_step irc version w r)
  unfolding stored_step
  step-IsStored w (now, r) a h = elim (Bool-cases (panics (step irc version w.server r).1)) [
    | inl bad ↦ rw (stored_step, bad) tt
    | inr good ↦
        rw (stored_step, good)
          (with_store (step irc version w.server r).0
            (persist_events now w.store (events_of (step irc version w.server r).1))
            (step-IsSound irc version w.server r (asked-HasValidMasks users r a) h.sound)
            (step_events w now r a h))
  ]

  pub run-IsStored :
      (w : Stored) (rs : List (DateTime × Request))
      → All (λ r. IsAsked users r.1) rs
      → IsStored w
      → Ensures IsStored (stored_run irc version w rs)
  unfolding stored_run
  run-IsStored w [] a h = h
  run-IsStored w (r ∷ rs) a h = elim (Option-cases (stored_step irc version w r)) [
    | inl e ↦ rw (stored_run, e) tt
    | inr (w', e) ↦ rw (stored_run, e) (run-IsStored w' rs a.1 (rw e at (step-IsStored w r a.0 h)))
  ]
