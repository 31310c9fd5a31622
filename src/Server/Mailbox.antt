-- ===== src/Server/Mailbox.antt =====
-- The mailbox of the actor of src/server.rs: the messages that change its state, one after another,
-- with what they keep.
use titanirc.Base.{
  ℕ, ◌≤◌, ◌≡◌, refl, inl, inr, Option, none, some, List, [], ◌∷◌, map, arith, Option-cases,
  Bool-cases, lookup, insert, remove, nat_eq, text_eq, IsUnique, insert-IsUnique, remove-IsUnique,
  length, length-insert, length-remove, max, Text, HashMap, All,
}
use titanirc.Irc.{IrcLibrary}
use titanirc.HostMask.{HostMask}
use titanirc.HostMask.RoundTrip.{IsValid}
use titanirc.HostMaskMap
use titanirc.HostMaskMap.{HostMaskMap, iter, from_iter}
use titanirc.HostMaskMap.Globs.{IsRoot, insert-IsRoot, new-IsRoot, from_iter-IsRoot}
use titanirc.HostMaskMap.Deletion.{remove-IsRoot}
use titanirc.Connection.{DateTime, InitiatedConnection}
use titanirc.Messages.{
  ClientAddr, ChannelAddr, UserConnected, ServerDisconnect, UserNickChange, ClientAway, ChannelJoin,
  Gline,
}
use titanirc.Server.{Server, Sent, new_server}
use titanirc.Server.Responses.{ServerBan, ServerListBanEntry}
use titanirc.Server.Handlers.{
  handle_user_connected, handle_server_disconnect, handle_channel_join, handle_user_nick_change,
  handle_server_away,
}
use titanirc.Server.Bans.{
  ban_of, fits, ban_entry, remove_masks, handle_gline, handle_remove_gline, load_server_ban_list,
  remove_expired_bans, expired_masks,
}
use titanirc.Server.Bans.Expiry.{StoresValid, remove_masks-IsRoot}
use titanirc.Server.Bans.Readable.{
  insert-StoresValid, remove-StoresValid, remove_masks-StoresValid, loaded-StoresValid,
  new-StoresValid,
}

-- The messages with a state to change, and the two tasks of `Actor::started`.
pub data Request : Type 0 where
  connecting : UserConnected → Request
  disconnecting : ServerDisconnect → Request
  joining : ChannelAddr → ChannelJoin → Request
  changing_nick : UserNickChange → Request
  going_away : ClientAway → Request
  glining : DateTime → Gline → Request
  unglining : HostMask → Request
  loading : Option (List ServerListBanEntry) → Request
  expiring : DateTime → Request

-- The masks of a request are parsed ones: `HostMask::try_from` makes no others.
abbrev pub HasValidMasks : Request → Type 0
HasValidMasks (glining now msg) = IsValid msg.mask
HasValidMasks (loading (some entries)) = All (λ e. IsValid e.mask) entries
HasValidMasks _ = Unit

pub record IsSound (s : Server) : Type 0 where
  pub rooted : IsRoot s.bans
  pub readable : StoresValid s.bans
  pub unique : IsUnique s.clients
  pub one_channel : IsUnique s.channels
  pub bounded : length s.clients ≤ s.max_clients

-- The same bans with other clients, and the other way round.
with_clients :
    (s : Server) (clients : HashMap ClientAddr InitiatedConnection) (most : ℕ)
    → IsSound s
    → IsUnique clients
    → length clients ≤ most
    → IsSound (record s { clients = clients; max_clients = most })
with_clients s clients most sound u b = record {
  rooted = sound.rooted;
  readable = sound.readable;
  unique = u;
  one_channel = sound.one_channel;
  bounded = b;
}

with_bans :
    (s : Server) (bans : HostMaskMap ServerBan)
    → IsSound s
    → IsRoot bans
    → StoresValid bans
    → IsSound (record s { bans = bans })
with_bans s bans sound root readable = record {
  rooted = root;
  readable = readable;
  unique = sound.unique;
  one_channel = sound.one_channel;
  bounded = sound.bounded;
}

module _ (irc : IrcLibrary) (version : Text) where
  unfoldable pub step : Server → Request → Server × List Sent
  step s (connecting msg) = handle_user_connected irc version s msg
  step s (disconnecting msg) = (handle_server_disconnect s msg, [])
  step s (joining fresh msg) = handle_channel_join s fresh msg
  step s (changing_nick msg) = handle_user_nick_change s msg
  step s (going_away msg) = (handle_server_away s msg, [])
  step s (glining now msg) = handle_gline now s msg
  step s (unglining mask) = handle_remove_gline s mask
  step s (loading answer) = ((load_server_ban_list s answer).0, [])
  step s (expiring now) = remove_expired_bans now s

  unfoldable pub run : Server → List Request → Server
  run s [] = s
  run s (r ∷ rs) = run (step s r).0 rs

  connect-IsSound :
      (s : Server) (msg : UserConnected)
      → IsSound s
      → IsSound (handle_user_connected irc version s msg).0
  unfolding handle_user_connected
  connect-IsSound s msg sound =
      let clients = insert msg.handle msg.connection s.clients in
      with_clients s clients (max (length clients) s.max_clients) sound
        (insert-IsUnique msg.handle msg.connection s.clients sound.unique) (ground arith)

  disconnect-IsSound :
      (s : Server) (msg : ServerDisconnect) → IsSound s → IsSound (handle_server_disconnect s msg)
  unfolding handle_server_disconnect
  disconnect-IsSound s msg sound =
      with_clients s (remove msg.client s.clients) s.max_clients sound
        (remove-IsUnique msg.client s.clients sound.unique)
        (omega (arith, length-remove msg.client s.clients, sound.bounded))

  join-IsSound :
      (s : Server) (fresh : ChannelAddr) (msg : ChannelJoin)
      → IsSound s
      → IsSound (handle_channel_join s fresh msg).0
  unfolding handle_channel_join
  join-IsSound s fresh msg sound = elim (Option-cases (lookup msg.channel_name s.channels)) [
    | inr (a, e) ↦ rw (handle_channel_join, e) sound
    | inl e ↦
        rw (handle_channel_join, e)
          (record {
            rooted = sound.rooted;
            readable = sound.readable;
            unique = sound.unique;
            one_channel = insert-IsUnique msg.channel_name fresh s.channels sound.one_channel;
            bounded = sound.bounded;
          })
  ]

  -- A client's entry is replaced.
  replace-IsSound :
      (s : Server) (a : ClientAddr) (old conn : InitiatedConnection)
      → lookup a s.clients ≡ some old
      → IsSound s
      → IsSound (record s { clients = insert a conn s.clients })
  replace-IsSound s a old conn e sound =
      with_clients s (insert a conn s.clients) s.max_clients sound
        (insert-IsUnique a conn s.clients sound.unique)
        (rw (length-insert a conn s.clients, e) sound.bounded)

  nick-IsSound :
      (s : Server) (msg : UserNickChange) → IsSound s → IsSound (handle_user_nick_change s msg).0
  unfolding handle_user_nick_change
  nick-IsSound s msg sound = elim (Option-cases (lookup msg.client s.clients)) [
    | inl e ↦ rw (handle_user_nick_change, e) sound
    | inr (old, e) ↦
        rw (handle_user_nick_change, e)
          (replace-IsSound s msg.client old (record msg.connection { nick = msg.new_nick }) e sound)
  ]

  away-IsSound : (s : Server) (msg : ClientAway) → IsSound s → IsSound (handle_server_away s msg)
  unfolding handle_server_away
  away-IsSound s msg sound = elim (Option-cases (lookup msg.handle s.clients)) [
    | inl e ↦ rw (handle_server_away, e) sound
    | inr (old, e) ↦
        rw (handle_server_away, e)
          (replace-IsSound s msg.handle old (record old { away = msg.message }) e sound)
  ]

  pub step-IsSound : (s : Server) (r : Request) → HasValidMasks r → IsSound s → IsSound (step s r).0
  unfolding step handle_gline handle_remove_gline load_server_ban_list remove_expired_bans
  step-IsSound s (connecting msg) v sound = connect-IsSound s msg sound
  step-IsSound s (disconnecting msg) v sound = disconnect-IsSound s msg sound
  step-IsSound s (joining fresh msg) v sound = join-IsSound s fresh msg sound
  step-IsSound s (changing_nick msg) v sound = nick-IsSound s msg sound
  step-IsSound s (going_away msg) v sound = away-IsSound s msg sound
  step-IsSound s (glining now msg) v sound = elim (Bool-cases (fits (ban_of msg now).expires)) [
    | inr late ↦ rw (step, handle_gline, late) sound
    | inl fit ↦
        rw (step, handle_gline, fit)
          (with_bans s (HostMaskMap.insert s.bans msg.mask (ban_of msg now)) sound
            (insert-IsRoot s.bans msg.mask (ban_of msg now) sound.rooted)
            (insert-StoresValid s.bans msg.mask (ban_of msg now) sound.rooted v refl
              sound.readable))
  ]
  step-IsSound s (unglining mask) v sound =
      with_bans s (HostMaskMap.remove s.bans mask).0 sound (remove-IsRoot s.bans mask sound.rooted)
        (remove-StoresValid s.bans mask sound.rooted sound.readable)
  step-IsSound s (loading none) v sound = sound
  step-IsSound s (loading (some entries)) v sound =
      with_bans s (from_iter (map ban_entry entries)) sound
        (from_iter-IsRoot (map ban_entry entries)) (loaded-StoresValid entries v)
  step-IsSound s (expiring now) v sound =
      let ms = expired_masks now (iter s.bans) in
      with_bans s (remove_masks ms s.bans) sound (remove_masks-IsRoot ms s.bans sound.rooted)
        (remove_masks-StoresValid ms s.bans sound.rooted sound.readable)

  -- Any sequence of messages whose masks are parsed ones leaves a sound server sound: never more
  -- clients than the maximum that it reports, one entry for each client and each channel, and every
  -- ban stored under the path of its own mask, which is a readable one.
  pub server_run-IsSound :
      (s : Server) (rs : List Request)
      → All (λ r. HasValidMasks r) rs
      → IsSound s
      → IsSound (run s rs)
  unfolding run
  server_run-IsSound s [] v sound = sound
  server_run-IsSound s (r ∷ rs) v sound =
      server_run-IsSound (step s r).0 rs v.1 (step-IsSound s r v.0 sound)

pub new_server-IsSound : (motd : Option Text) → IsSound (new_server motd)
new_server-IsSound motd = record {
  rooted = new-IsRoot;
  readable = new-StoresValid;
  unique = tt;
  one_channel = tt;
  bounded = omega arith;
}
