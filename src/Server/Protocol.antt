-- ===== src/Server/Protocol.antt =====
-- The trait `IntoProtocol` of src/server/response.rs, with its implementations.
use titanirc.Base.{Option, none, some, List, [], ◌⊎◌, inl, inr, Text}
use mathlib.Core.List.{flat_map}
use titanirc.Irc.{Message}
use titanirc.Connection.{DateTime}
use titanirc.Channel.Responses.{ChannelTopic, topic_messages, BanList, ban_messages}
use titanirc.Server.{Server}
use titanirc.Server.Responses.{
  Printing, Whois, whois_messages, no_such_nick_messages, WhoList, who_list_messages, AdminInfo,
  admin_messages, ListUsers, list_users_messages, motd_messages, ChannelListItem,
  channel_list_messages, ServerBan, ban_entry_messages,
}

-- An answer that a client writes out as messages to its user.
pub record IntoProtocol (T : Type 0) : Type 0 where
  pub into_messages : T → Text → List Message

abbrev pub into_messages : {T : Type 0} ⦃p : IntoProtocol T⦄ → T → Text → List Message
into_messages ⦃p⦄ = p.into_messages

pub record Motd : Type 0 where
  pub motd : Option Text

-- `Motd::new`
abbrev pub motd_of : Server → Motd
motd_of s = record { motd = s.motd }

pub record NoSuchNick : Type 0 where
  pub nick : Text

pub record ChannelList : Type 0 where
  pub members : List ChannelListItem

instance abbrev pub unit_protocol : IntoProtocol (Unit {0})
unit_protocol = record { into_messages = λ u for_user. [] }

abbrev pub some_messages : {T : Type 0} ⦃p : IntoProtocol T⦄ → Option T → Text → List Message
some_messages none for_user = []
some_messages (some v) for_user = into_messages v for_user

abbrev pub either_messages :
    {T E : Type 0} ⦃p : IntoProtocol T⦄ ⦃q : IntoProtocol E⦄ → T ⊎ E → Text → List Message
either_messages (inl v) for_user = into_messages v for_user
either_messages (inr e) for_user = into_messages e for_user

abbrev pub all_messages : {T : Type 0} ⦃p : IntoProtocol T⦄ → List T → Text → List Message
all_messages vs for_user = flat_map (λ v. into_messages v for_user) vs

instance abbrev pub option_protocol : {T : Type 0} ⦃p : IntoProtocol T⦄ → IntoProtocol (Option T)
option_protocol = record { into_messages = some_messages }

-- `Result<T, E>` is `T ⊎ E`.
instance abbrev pub result_protocol :
    {T E : Type 0} ⦃p : IntoProtocol T⦄ ⦃q : IntoProtocol E⦄ → IntoProtocol (T ⊎ E)
result_protocol = record { into_messages = either_messages }

instance abbrev pub vec_protocol : {T : Type 0} ⦃p : IntoProtocol T⦄ → IntoProtocol (List T)
vec_protocol = record { into_messages = all_messages }

instance abbrev pub motd_protocol : IntoProtocol Motd
motd_protocol = record { into_messages = λ m. motd_messages m.motd }

instance abbrev pub no_such_nick_protocol : IntoProtocol NoSuchNick
no_such_nick_protocol = record { into_messages = λ n. no_such_nick_messages n.nick }

instance abbrev pub channel_list_protocol : IntoProtocol ChannelList
channel_list_protocol = record { into_messages = λ l. channel_list_messages l.members }

instance abbrev pub who_list_protocol : IntoProtocol WhoList
who_list_protocol = record { into_messages = who_list_messages }

instance abbrev pub admin_info_protocol : IntoProtocol AdminInfo
admin_info_protocol = record { into_messages = admin_messages }

instance abbrev pub list_users_protocol : IntoProtocol ListUsers
list_users_protocol = record { into_messages = list_users_messages }

-- `ModeList` has the list of bans as its only case.
instance abbrev pub ban_list_protocol : IntoProtocol BanList
ban_list_protocol = record { into_messages = ban_messages }

-- Those that print times.
abbrev pub whois_protocol : Printing → IntoProtocol Whois
whois_protocol printing = record { into_messages = whois_messages printing }

abbrev pub server_ban_protocol : Printing → IntoProtocol ServerBan
server_ban_protocol printing = record { into_messages = ban_entry_messages printing }

abbrev pub topic_protocol : (DateTime → Text) → IntoProtocol ChannelTopic
topic_protocol show_time = record { into_messages = topic_messages show_time }
