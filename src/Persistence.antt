-- ===== src/Persistence.antt =====
-- The actor of src/persistence.rs. The tables that its queries read and write (src/migrations) are
-- lists of rows; a handler is what its queries do to them. Rows come in the order of the list where
-- a query leaves the order open. A time is the number of its nanoseconds.
pub mod Clock
pub mod Replay
pub mod Sorted
pub mod Upkeep
pub mod Truncation
pub mod Mailbox
pub mod Missed
pub mod Ordering
pub mod Overflow
use titanirc.Base.{
  ℕ, suc, ◌+◌, ◌-◌, Bool, true, false, not, ◌&&◌, ◌||◌, Option, none, some, List, [], ◌∷◌, ◌++◌,
  map, if◌then◌else◌, unwrap_or, ltb, leb, find, keep, lookup, insert, contains_key, HashMap,
  nat_eq, max, min, Text, text_eq, ◌==◌, is_some,
}
use mathlib.Core.Option
use titanirc.HostMask.{HostMask, to_string, Parsed, ok, err, encode, decode}
use titanirc.HostMaskMap
use titanirc.HostMaskMap.{HostMaskMap}
use titanirc.Permission.{Permission}
use titanirc.Connection.{DateTime, UserId}
use titanirc.Messages.{ChannelId, Duration, MessageKind}
use titanirc.Server.Responses.{ServerListBanEntry}

pub record ChannelUser : Type 0 where
  pub channel : ChannelId
  pub user : UserId
  pub in_channel : Bool
  pub last_seen : Option DateTime

pub record ChannelRow : Type 0 where
  pub channel : ChannelId
  pub timestamp : DateTime
  pub sender : Text
  pub message : Text
  pub kind : MessageKind

pub record PrivateRow : Type 0 where
  pub timestamp : DateTime
  pub sender : Text
  pub receiver : UserId
  pub message : Text
  pub kind : MessageKind

pub record BanRow : Type 0 where
  pub mask : HostMask
  pub requester : UserId
  pub reason : Text
  pub created : DateTime
  pub expires : Option DateTime

pub record Database : Type 0 where
  pub users : HashMap UserId Text
  pub user_nicks : HashMap Text UserId
  pub channels : HashMap Text ChannelId
  pub channel_users : List ChannelUser
  pub channel_permissions : List (ChannelId × HostMask × Permission)
  pub channel_messages : List ChannelRow
  pub private_messages : List PrivateRow
  pub server_bans : List BanRow

-- `struct Persistence`
pub record Persistence : Type 0 where
  pub database : Database
  pub max_message_replay_since : Duration
  pub last_seen_clock : DateTime

-- `Persistence::monotonically_increasing_id` at the time `now`.
unfoldable pub monotonically_increasing_id : DateTime → Persistence → DateTime
monotonically_increasing_id now p = if leb now p.last_seen_clock then p.last_seen_clock + 1 else now

-- The key that the database gives to a new row: one more than the largest.
abbrev pub next_key : HashMap Text ChannelId → ChannelId
next_key [] = 1
next_key ((name, id) ∷ rest) = max (id + 1) (next_key rest)

-- `Handler<ChannelCreated>`
unfoldable pub channel_created : Text → Database → Database × ChannelId
channel_created name d = elim (lookup name d.channels) [
  | some id ↦ (d, id)
  | none ↦
      (record d { channels = insert name (next_key d.channels) d.channels }, next_key d.channels)
]

abbrev pub is_row : ChannelId → UserId → ChannelUser → Bool
is_row channel user r = (r.channel == channel) && (r.user == user)

abbrev pub upsert_user : ChannelId → UserId → List ChannelUser → List ChannelUser
upsert_user channel user [] =
    record { channel = channel; user = user; in_channel = true; last_seen = none } ∷ []
upsert_user channel user (r ∷ rest) =
    if is_row channel user r
    then record r { in_channel = true } ∷ rest
    else r ∷ upsert_user channel user rest

-- `Handler<ChannelJoined>`
unfoldable pub persist_joined : ChannelId → UserId → Database → Database
persist_joined channel user d = record d {
  channel_users = upsert_user channel user d.channel_users;
}

abbrev pub leave_row : ChannelId → UserId → ChannelUser → ChannelUser
leave_row channel user r = record r { in_channel = not (is_row channel user r) && r.in_channel }

-- `Handler<ChannelParted>`
unfoldable pub persist_parted : ChannelId → UserId → Database → Database
persist_parted channel user d = record d {
  channel_users = map (leave_row channel user) d.channel_users;
}

abbrev pub of_channel :
    ChannelId → List (ChannelId × HostMask × Permission) → List (HostMask × Permission)
of_channel channel [] = []
of_channel channel ((id, mask, permission) ∷ rest) =
    if id == channel then (mask, permission) ∷ of_channel channel rest else of_channel channel rest

-- The rows that the query fetches, whose masks are read from their texts. A text that is no mask is
-- an error of the query, whose `unwrap` panics: `none`.
abbrev pub decoded_row :
    Parsed
    → Permission
    → Option (List (HostMask × Permission))
    → Option (List (HostMask × Permission))
decoded_row (ok m) permission (some rows) = some ((m, permission) ∷ rows)
decoded_row (ok m) permission none = none
decoded_row (err e) permission rows = none

unfoldable pub decode_rows : List (HostMask × Permission) → Option (List (HostMask × Permission))
decode_rows [] = some []
decode_rows ((m, permission) ∷ rest) = decoded_row (decode (encode m)) permission (decode_rows rest)

-- `Handler<FetchAllUserChannelPermissions>`
unfoldable pub fetch_all_permissions : ChannelId → Database → Option (HostMaskMap Permission)
fetch_all_permissions channel d =
    Option.map HostMaskMap.from_iter (decode_rows (of_channel channel d.channel_permissions))

-- Masks are stored as their texts.
abbrev pub upsert_permission :
    ChannelId
    → HostMask
    → Permission
    → List (ChannelId × HostMask × Permission)
    → List (ChannelId × HostMask × Permission)
upsert_permission channel mask permission [] = (channel, mask, permission) ∷ []
upsert_permission channel mask permission ((id, m, p) ∷ rest) =
    if (id == channel) && (to_string m == to_string mask)
    then (id, m, permission) ∷ rest
    else (id, m, p) ∷ upsert_permission channel mask permission rest

-- `Handler<SetUserChannelPermissions>`
unfoldable pub persist_permission : ChannelId → HostMask → Permission → Database → Database
persist_permission channel mask permission d = record d {
  channel_permissions = upsert_permission channel mask permission d.channel_permissions;
}

abbrev pub is_member : List ChannelUser → UserId → Text × ChannelId → Bool
is_member rows user (name, id) =
    is_some (find (λ (r : ChannelUser). is_row id user r && r.in_channel) rows)

-- `Handler<FetchUserChannels>`
unfoldable pub fetch_user_channels : UserId → Database → List Text
fetch_user_channels user d =
    map (λ (e : Text × ChannelId). e.0) (keep (is_member d.channel_users user) d.channels)

-- `Handler<FetchUserIdByNick>`
unfoldable pub fetch_user_id_by_nick : Text → Database → Option UserId
fetch_user_id_by_nick nick d = lookup nick d.user_nicks

abbrev pub one_of : UserId → List UserId → Bool
one_of user [] = false
one_of user (u ∷ us) = (u == user) || one_of user us

abbrev pub mark_seen : ChannelId → DateTime → List UserId → ChannelUser → ChannelUser
mark_seen channel timestamp receivers r = record r {
  last_seen =
      if (r.channel == channel) && one_of r.user receivers then some timestamp else r.last_seen;
}

-- `Handler<ChannelMessage>`. With no receivers the update changes nothing, as without it.
unfoldable pub persist_channel_message :
    DateTime → Persistence → ChannelId → Text → Text → List UserId → MessageKind → Persistence
persist_channel_message now p channel sender message receivers kind =
    let id : DateTime = monotonically_increasing_id now p in
    let row : ChannelRow = record {
      channel = channel;
      timestamp = id;
      sender = sender;
      message = message;
      kind = kind;
    } in
    record p {
      last_seen_clock = id;
      database = record p.database {
        channel_messages = p.database.channel_messages ++ row ∷ [];
        channel_users = map (mark_seen channel id receivers) p.database.channel_users;
      };
    }

-- `Handler<PrivateMessage>`
unfoldable pub persist_private_message :
    DateTime → Persistence → Text → UserId → Text → MessageKind → Persistence
persist_private_message now p sender receiver message kind =
    let id : DateTime = monotonically_increasing_id now p in
    let row : PrivateRow = record {
      timestamp = id;
      sender = sender;
      receiver = receiver;
      message = message;
      kind = kind;
    } in
    record p {
      last_seen_clock = id;
      database = record p.database { private_messages = p.database.private_messages ++ row ∷ [] };
    }

abbrev pub is_for : UserId → PrivateRow → Bool
is_for user r = r.receiver == user

-- `Handler<FetchUnseenPrivateMessages>`
unfoldable pub fetch_unseen_private_messages : UserId → Database → Database × List PrivateRow
fetch_unseen_private_messages user d = (
  record d { private_messages = keep (λ (r : PrivateRow). not (is_for user r)) d.private_messages },
  keep (is_for user) d.private_messages,
)

abbrev pub seen_until : ChannelId → UserId → List ChannelUser → DateTime
seen_until channel user rows = elim (find (is_row channel user) rows) [
  | none ↦ 0
  | some r ↦ unwrap_or r.last_seen 0
]

abbrev pub is_unseen : ChannelId → DateTime → ChannelRow → Bool
is_unseen channel after r = (r.channel == channel) && ltb after r.timestamp

-- `ORDER BY timestamp ASC`
abbrev pub insert_row : ChannelRow → List ChannelRow → List ChannelRow
insert_row r [] = r ∷ []
insert_row r (x ∷ rest) =
    let later = insert_row r rest in if leb r.timestamp x.timestamp then r ∷ x ∷ rest else x ∷ later

abbrev pub order_by_timestamp : List ChannelRow → List ChannelRow
order_by_timestamp [] = []
order_by_timestamp (r ∷ rest) = insert_row r (order_by_timestamp rest)

-- `Handler<FetchUnseenChannelMessages>`
unfoldable pub fetch_unseen_channel_messages :
    DateTime → Persistence → Text → UserId → List ChannelRow
fetch_unseen_channel_messages now p name user = elim (lookup name p.database.channels) [
  | none ↦ []
  | some channel ↦
      let after : DateTime =
        max (now - p.max_message_replay_since) (seen_until channel user p.database.channel_users) in
      order_by_timestamp (keep (is_unseen channel after) p.database.channel_messages)
]

-- `Handler<ReserveNick>`
unfoldable pub reserve_nick : UserId → Text → Database → Database × Bool
reserve_nick user nick d = elim (lookup nick d.user_nicks) [
  | some owner ↦ (d, owner == user)
  | none ↦ (record d { user_nicks = insert nick user d.user_nicks }, true)
]
