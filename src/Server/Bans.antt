-- ===== src/Server/Bans.antt =====
-- The server-wide bans of src/server.rs.
pub mod Enforcement
pub mod Expiry
pub mod Readable
use titanirc.Base.{
  ℕ, ◌+◌, Bool, true, false, not, Option, none, some, List, [], ◌∷◌, ◌++◌, map, if◌then◌else◌,
  unwrap_or, is_empty, leb, first, HashMap, Text, text,
}
use mathlib.Core.Option
use titanirc.HostMask
use titanirc.HostMask.{HostMask}
use titanirc.HostMaskMap
use titanirc.HostMaskMap.{HostMaskMap}
use titanirc.Connection.{DateTime, InitiatedConnection, to_host_mask}
use titanirc.Messages.{
  ClientAddr, kill_user, KillUser, server_ban, server_remove_ban, Gline, Duration,
}
use titanirc.Server.{Server, Sent, to_client, persist, panic}
use titanirc.Server.Responses.{
  ServerBan, ServerListBanEntry, ban_from_entry, ConnectionValidated, allowed, reject,
}

abbrev pub g_lined : Option Text → Text
g_lined reason = text "G-lined: " ++ unwrap_or reason (text "no reason given")

abbrev pub validated : Option ServerBan → ConnectionValidated
validated none = allowed
validated (some ban) = reject (g_lined ban.reason)

-- `Handler<ValidateConnection>`
unfoldable pub handle_validate_connection : Server → InitiatedConnection → ConnectionValidated
handle_validate_connection s conn = validated (first (HostMaskMap.get s.bans (to_host_mask conn)))

abbrev pub ban_of : Gline → DateTime → ServerBan
ban_of msg created = record {
  mask = msg.mask;
  requester = msg.requester.user;
  reason = msg.reason;
  created = created;
  expires = Option.map (λ (v : Duration). created + v) msg.duration;
}

abbrev pub kill_by : Gline → InitiatedConnection → KillUser
kill_by msg user = record {
  killer = msg.requester.nick;
  comment = g_lined msg.reason;
  killed = user.nick;
}

-- The loop over the clients, with the bans of the time.
abbrev pub kill_banned :
    HostMaskMap ServerBan → Gline → HashMap ClientAddr InitiatedConnection → List Sent
kill_banned bans msg [] = []
kill_banned bans msg ((handle, user) ∷ rest) =
    if not (is_empty (HostMaskMap.get bans (to_host_mask user)))
    then to_client handle (kill_user (kill_by msg user)) ∷ kill_banned bans msg rest
    else kill_banned bans msg rest

-- `DateTime::<Utc>::MAX_UTC`, the end of the year 262142.
abbrev pub max_utc : DateTime
max_utc = 8210266876799999999999

-- Whether the addition of the duration is defined.
abbrev pub fits : Option DateTime → Bool
fits none = true
fits (some t) = leb t max_utc

-- `Handler<Gline>`; `created` is `Utc::now()`. A time of expiry that does not fit panics before
-- anything is done.
unfoldable pub handle_gline : DateTime → Server → Gline → Server × List Sent
handle_gline created s msg =
    let ban : ServerBan = ban_of msg created in
    let bans : HostMaskMap ServerBan = HostMaskMap.insert s.bans msg.mask ban in
    if fits ban.expires
    then (
      record s { bans = bans },
      kill_banned bans msg s.clients
          ++ persist (
              server_ban msg.mask msg.requester.user_id (unwrap_or msg.reason []) created
                ban.expires)
            ∷ [],
    )
    else (s, panic ∷ [])

-- `Handler<RemoveGline>`
unfoldable pub handle_remove_gline : Server → HostMask → Server × List Sent
handle_remove_gline s mask =
    (record s { bans = (HostMaskMap.remove s.bans mask).0 }, persist (server_remove_ban mask) ∷ [])

-- `Handler<ListGline>`
unfoldable pub handle_list_gline : Server → List ServerBan
handle_list_gline s = map (λ (e : Text × ServerBan). e.1) (HostMaskMap.iter s.bans)

abbrev pub ban_entry : ServerListBanEntry → HostMask × ServerBan
ban_entry e = (e.mask, ban_from_entry e)

-- `Server::load_server_ban_list`; `none` is a mailbox error, and the flag is `ctx.terminate()`.
unfoldable pub load_server_ban_list : Server → Option (List ServerListBanEntry) → Server × Bool
load_server_ban_list s none = (s, true)
load_server_ban_list s (some bans) =
    (record s { bans = HostMaskMap.from_iter (map ban_entry bans) }, false)

-- `Actor::started`, which waits for the bans: the state, whether the server is terminated, and the
-- seconds between two removals of expired bans.
unfoldable pub started : Server → Option (List ServerListBanEntry) → Server × Bool × Duration
started s bans = let (s', terminated) = load_server_ban_list s bans in (s', terminated, 30)

abbrev pub is_expired : DateTime → ServerBan → Bool
is_expired now ban = elim ban.expires [ none ↦ false | some t ↦ leb t now ]

abbrev pub push_mask : HostMask.Parsed → List HostMask → List HostMask
push_mask (HostMask.err e) rest = rest
push_mask (HostMask.ok mask) rest = mask ∷ rest

-- The first loop of `remove_expired_bans`: the masks whose bans have expired.
abbrev pub expired_masks : DateTime → List (Text × ServerBan) → List HostMask
expired_masks now [] = []
expired_masks now ((mask, ban) ∷ rest) =
    if is_expired now ban
    then push_mask (HostMask.try_from mask) (expired_masks now rest)
    else expired_masks now rest

-- The second one.
abbrev pub remove_masks : List HostMask → HostMaskMap ServerBan → HostMaskMap ServerBan
remove_masks [] bans = bans
remove_masks (mask ∷ masks) bans = remove_masks masks (HostMaskMap.remove bans mask).0

abbrev pub forget_ban : HostMask → Sent
forget_ban mask = persist (server_remove_ban mask)

-- `Server::remove_expired_bans`; one reading of the clock stands for those of the loop.
unfoldable pub remove_expired_bans : DateTime → Server → Server × List Sent
remove_expired_bans now s =
    let expired : List HostMask = expired_masks now (HostMaskMap.iter s.bans) in
    (record s { bans = remove_masks expired s.bans }, map forget_ban expired)
