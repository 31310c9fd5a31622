-- ===== src/Server/Queries.antt =====
-- The handlers of src/server.rs that answer a question.
use titanirc.Base.{
  Option, none, some, List, [], ◌∷◌, map, keep, length, lookup, keys, values, nat_eq, Text, text,
  text_eq,
}
use mathlib.Core.List.{flat_map}
use mathlib.Core.Option
use titanirc.Permission.{Permission}
use titanirc.Messages.{ClientAddr, ChannelAddr, force_disconnect, ForceDisconnect}
use titanirc.Channel.{CurrentChannelTopic}
use titanirc.Channel.Responses.{MemberList, ChannelTopic}
use titanirc.Server.{Server, Sent, to_client}
use titanirc.Server.Responses.{Whois, WhoList, AdminInfo, ListUsers, ChannelListItem}
use titanirc.Server.Handlers.{has_nick, by_nick}

-- `Handler<FetchClientByNick>`
unfoldable pub handle_fetch_client_by_nick : Server → Text → Option ClientAddr
handle_fetch_client_by_nick s nick = elim (by_nick s nick) [
  | none ↦ none
  | some (handle, conn) ↦ some handle
]

-- `Handler<FetchWhois>`; `connected` answers for a client's `ConnectedChannels`.
unfoldable pub handle_fetch_whois : (ClientAddr → List (Permission × Text)) → Server → Text → Whois
handle_fetch_whois connected s query = elim (by_nick s query) [
  | none ↦ record { query = query; conn = none; channels = [] }
  | some (handle, conn) ↦ record { query = query; conn = some conn; channels = connected handle }
]

-- `Handler<ForceDisconnect>`; the answer is the nick that nobody has.
unfoldable pub handle_force_disconnect : Server → ForceDisconnect → List Sent × Option Text
handle_force_disconnect s msg = elim (by_nick s msg.user) [
  | none ↦ ([], some msg.user)
  | some (handle, conn) ↦ (to_client handle (force_disconnect msg) ∷ [], none)
]

-- `Handler<FetchWhoList>`; the two functions answer for a channel's and a client's list. The
-- answers of the clients are collected in the order of the clients.
unfoldable pub handle_fetch_who_list :
    (ChannelAddr → MemberList) → (ClientAddr → List MemberList) → Server → Text → WhoList
handle_fetch_who_list ask_channel ask_client s query = elim (lookup query s.channels) [
  | some channel ↦ record { list = ask_channel channel ∷ []; query = query }
  | none ↦ record {
    list = flat_map ask_client (keys (keep (has_nick query) s.clients));
    query = query;
  }
]

abbrev pub list_item : ChannelTopic × MemberList → ChannelListItem
list_item (t, members) = record {
  channel_name = t.channel_name;
  client_count = length members.nick_list;
  topic = Option.map (λ (v : CurrentChannelTopic). v.topic) t.topic;
}

-- `Handler<ChannelList>`; `ask` gives a channel's topic and members.
unfoldable pub handle_channel_list :
    (ChannelAddr → ChannelTopic × MemberList) → Server → List ChannelListItem
handle_channel_list ask s = map (λ (a : ChannelAddr). list_item (ask a)) (values s.channels)

-- `Handler<ServerListUsers>`
unfoldable pub handle_list_users : Server → ListUsers
handle_list_users s = record {
  current_clients = length s.clients;
  max_clients = s.max_clients;
  operators_online = 0;
  channels_formed = length s.channels;
}

-- `Handler<ServerAdminInfo>`
unfoldable pub handle_admin_info : Server → AdminInfo
handle_admin_info s = record {
  line1 = text "Name: example name";
  line2 = text "Nickname: examplenick";
  email = text "Email: me@example.com";
}
