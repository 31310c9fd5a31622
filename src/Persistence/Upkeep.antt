-- ===== src/Persistence/Upkeep.antt =====
-- The bans that src/persistence.rs stores, and its deletion of old messages.
use titanirc.Base.{
  ◌-◌, Bool, not, ◌&&◌, ◌||◌, ltb, Option, none, some, List, [], ◌∷◌, ◌++◌, if◌then◌else◌,
  unwrap_or, leb, find, keep, lookup, HashMap, nat_eq, max, min, Text, text_eq, ◌==◌, is_some,
}
use titanirc.HostMask.{HostMask, to_string}
use titanirc.Connection.{DateTime, UserId}
use titanirc.Messages.{ChannelId}
use titanirc.Server.Responses.{ServerListBanEntry}
use titanirc.Persistence.{Persistence, Database, BanRow, ChannelUser, ChannelRow}

abbrev pub has_mask : HostMask → BanRow → Bool
has_mask mask r = to_string r.mask == to_string mask

-- 2 ^ 63
abbrev pub i64_bound : DateTime
i64_bound = 9223372036854775808

-- Whether `timestamp_nanos_opt` gives a number, an `i64`.
abbrev pub is_storable : DateTime → Bool
is_storable t = ltb t i64_bound

-- Whether the times of a ban may be stored.
abbrev pub are_storable : DateTime → Option DateTime → Bool
are_storable created none = is_storable created
are_storable created (some expires) = is_storable created && is_storable expires

-- What the unwraps and the keys of the table refuse: a time that is no `i64`, a mask that is banned
-- already, and a requester who is no user.
abbrev pub is_refused : BanRow → Database → Bool
is_refused ban d =
    not (are_storable ban.created ban.expires)
    || (is_some (find (has_mask ban.mask) d.server_bans)
        || not (is_some (lookup ban.requester d.users)))

-- `Handler<ServerBan>`: `none` is a panic.
unfoldable pub persist_ban : BanRow → Database → Option Database
persist_ban ban d =
    if is_refused ban d then none else some (record d { server_bans = d.server_bans ++ ban ∷ [] })

-- `Handler<ServerRemoveBan>`
unfoldable pub persist_remove_ban : HostMask → Database → Database
persist_remove_ban mask d = record d {
  server_bans = keep (λ (r : BanRow). not (has_mask mask r)) d.server_bans;
}

abbrev pub least : Option DateTime → Option DateTime → Option DateTime
least none b = b
least (some a) none = some a
least (some a) (some b) = some (min a b)

-- `MIN`, which skips the rows without a time.
abbrev pub min_seen : ChannelId → List ChannelUser → Option DateTime
min_seen channel [] = none
min_seen channel (r ∷ rest) =
    if r.channel == channel
    then least r.last_seen (min_seen channel rest)
    else min_seen channel rest

abbrev pub is_kept : ChannelId → DateTime → ChannelRow → Bool
is_kept channel remove_before r = not ((r.channel == channel) && leb r.timestamp remove_before)

abbrev pub remove_before : DateTime → List ChannelUser → ChannelId → DateTime
remove_before expired users channel = max (unwrap_or (min_seen channel users) 0) expired

abbrev pub truncate_channels :
    DateTime → List ChannelUser → List ChannelUser → List ChannelRow → List ChannelRow
truncate_channels expired users [] rows = rows
truncate_channels expired users (u ∷ us) rows =
    truncate_channels expired users us
      (keep (is_kept u.channel (remove_before expired users u.channel)) rows)

-- A channel takes its turn once for each of its rows, which deletes what one turn deletes.
unfoldable pub truncate_seen_messages : DateTime → Persistence → Persistence
truncate_seen_messages now p = record p {
  database = record p.database {
    channel_messages =
        truncate_channels (now - p.max_message_replay_since) p.database.channel_users
          p.database.channel_users p.database.channel_messages;
  };
}

abbrev pub joined_ban : HashMap UserId Text → BanRow → List ServerListBanEntry
joined_ban users r = elim (lookup r.requester users) [
  | none ↦ []
  | some username ↦
      record {
        requester = username;
        mask = r.mask;
        reason = r.reason;
        created_timestamp = r.created;
        expires_timestamp = r.expires;
      }
      ∷ []
]

abbrev pub join_bans : HashMap UserId Text → List BanRow → List ServerListBanEntry
join_bans users [] = []
join_bans users (r ∷ rest) = joined_ban users r ++ join_bans users rest

-- `Handler<ServerListBan>`: a ban whose requester is no user is not listed. The masks come from the
-- parser, which reads them back from their texts.
unfoldable pub persist_list_bans : Database → List ServerListBanEntry
persist_list_bans d = join_bans d.users d.server_bans
