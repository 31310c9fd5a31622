-- ===== src/System/Answers.antt =====
-- The questions of a client of src/client.rs, and the answers of the server and the channels that
-- it writes to its user.
use titanirc.Base.{
  refl, ◌⊎◌, inl, inr, Option, none, some, Bool, true, List, map, All, All-mapped, Text, nat_eq,
}
use titanirc.Irc.{Message}
use titanirc.Permission.{Permission}
use titanirc.Connection.{DateTime, to_host_mask}
use titanirc.Messages.{ClientAddr, ChannelAddr, ChannelSetMode}
use titanirc.Channel.{Channel}
use titanirc.Channel.Responses.{MemberList}
use titanirc.Channel.Handlers.{
  handle_member_list, handle_fetch_user_permission, handle_fetch_topic, handle_set_mode,
}
use titanirc.Client
use titanirc.Client.{Client, Question}
use titanirc.Client.Handlers.{handle_own_who_list, handle_connected_channels}
use titanirc.Client.Answers.{server_send_map_write, channel_send_map_write}
use titanirc.Server.{Server}
use titanirc.Server.Responses.{
  Printing, Whois, no_such_nick_messages, WhoList, AdminInfo, admin_messages, ListUsers,
  list_users_messages, ServerBan, ban_entry_messages,
}
use titanirc.Server.Protocol.{
  IntoProtocol, into_messages, Motd, motd_of, NoSuchNick, ChannelList, unit_protocol,
  result_protocol, vec_protocol, option_protocol, motd_protocol, no_such_nick_protocol,
  channel_list_protocol, who_list_protocol, admin_info_protocol, list_users_protocol,
  ban_list_protocol, whois_protocol, server_ban_protocol, topic_protocol,
}
use titanirc.Server.Queries.{
  handle_fetch_whois, handle_force_disconnect, handle_fetch_who_list, handle_channel_list,
  handle_list_users, handle_admin_info,
}
use titanirc.Server.Bans.{handle_list_gline}
use titanirc.Server.Addressed.{
  IsFor, AreFor, motd-AreFor, channel_list-AreFor, flat_map-AreFor, who_list-AreFor, whois-AreFor,
  topic-AreFor, mode_list-AreFor,
}

-- The server, with the channel and the client at each address.
pub record Network : Type 0 where
  pub server : Server
  pub channels : ChannelAddr → Channel
  pub clients : ClientAddr → Client

-- The type of the answer to a question.
abbrev pub Answer : Question → Type 0
Answer Question.motd = Motd
Answer Question.list_users = ListUsers
Answer Question.admin_info = AdminInfo
Answer Question.channel_list = ChannelList
Answer (Question.who query) = WhoList
Answer (Question.whois query) = Whois
Answer (Question.force_disconnect m) = Unit {0} ⊎ NoSuchNick
Answer (Question.gline m) = Unit
Answer (Question.remove_gline mask) = Unit
Answer Question.list_gline = List ServerBan

abbrev pub ask_members : Network → ChannelAddr → MemberList
ask_members n a = handle_member_list (n.channels a)

-- What a client answers to `ConnectedChannels`.
abbrev pub ask_connected : Network → ClientAddr → List (Permission × Text)
ask_connected n a =
    let c = n.clients a in
    handle_connected_channels
      (λ channel. handle_fetch_user_permission (n.channels channel) (to_host_mask c.connection)) c

abbrev pub or_no_such_nick : Option Text → Unit {0} ⊎ NoSuchNick
or_no_such_nick none = inl tt
or_no_such_nick (some nick) = inr (record { nick = nick })

-- The answer of the server, and of the actors that it asks.
unfoldable pub respond : Network → (q : Question) → Answer q
respond n Question.motd = motd_of n.server
respond n Question.list_users = handle_list_users n.server
respond n Question.admin_info = handle_admin_info n.server
respond n Question.channel_list = record {
  members =
      handle_channel_list (λ a. (handle_fetch_topic (n.channels a) true, ask_members n a)) n.server;
}
respond n (Question.who query) =
    handle_fetch_who_list (ask_members n) (λ a. handle_own_who_list (ask_members n) (n.clients a))
      n.server query
respond n (Question.whois query) = handle_fetch_whois (ask_connected n) n.server query
respond n (Question.force_disconnect m) = or_no_such_nick (handle_force_disconnect n.server m).1
respond n (Question.gline m) = tt
respond n (Question.remove_gline mask) = tt
respond n Question.list_gline = handle_list_gline n.server

module _ (printing : Printing) (show_time : DateTime → Text) where
  abbrev pub answer_protocol : (q : Question) → IntoProtocol (Answer q)
  answer_protocol Question.motd = motd_protocol
  answer_protocol Question.list_users = list_users_protocol
  answer_protocol Question.admin_info = admin_info_protocol
  answer_protocol Question.channel_list = channel_list_protocol
  answer_protocol (Question.who query) = who_list_protocol
  answer_protocol (Question.whois query) = whois_protocol printing
  answer_protocol (Question.force_disconnect m) = result_protocol
  answer_protocol (Question.gline m) = unit_protocol
  answer_protocol (Question.remove_gline mask) = unit_protocol
  answer_protocol Question.list_gline = vec_protocol ⦃p = server_ban_protocol printing⦄

  answer-AreFor :
      (q : Question) (a : Answer q) (nick : Text)
      → AreFor nick (into_messages ⦃p = answer_protocol q⦄ a nick)
  unfolding no_such_nick_messages admin_messages list_users_messages ban_entry_messages
  answer-AreFor Question.motd a nick = motd-AreFor a.motd nick
  answer-AreFor Question.list_users a nick = (refl, (refl, (refl, (refl, (refl, (refl, tt))))))
  answer-AreFor Question.admin_info a nick = (refl, (refl, (refl, (refl, tt))))
  answer-AreFor Question.channel_list a nick = channel_list-AreFor a.members nick
  answer-AreFor (Question.who query) a nick = who_list-AreFor a nick
  answer-AreFor (Question.whois query) a nick = whois-AreFor printing a nick
  answer-AreFor (Question.force_disconnect m) (inl u) nick = tt
  answer-AreFor (Question.force_disconnect m) (inr e) nick = (refl, tt)
  answer-AreFor (Question.gline m) a nick = tt
  answer-AreFor (Question.remove_gline mask) a nick = tt
  answer-AreFor Question.list_gline a nick =
      flat_map-AreFor nick (λ b. ban_entry_messages printing b nick) a (λ b. (refl, tt))

  -- What a client writes is a reply to its own nick.
  abbrev pub IsWrittenFor : Text → Client.Sent → Type 0
  IsWrittenFor nick (Client.write m) = IsFor nick m
  IsWrittenFor nick _ = ⊥

  abbrev pub AreWrittenFor : Text → Option (List Client.Sent) → Type 0
  AreWrittenFor nick none = ⊥
  AreWrittenFor nick (some sent) = All (IsWrittenFor nick) sent

  written_for :
      (nick : Text) (ms : List Message)
      → AreFor nick ms
      → All (IsWrittenFor nick) (map Client.write ms)
  written_for nick ms h = All-mapped (IsFor nick) (IsWrittenFor nick) Client.write ms (λ m k. k) h

  -- Whatever a client asks the server, and whatever list of bans or topic it asks a channel for,
  -- each message that it writes of the answer is a reply to the nick that it has then.
  pub answers_addressed :
      (n : Network) (c : Client) (ch : Channel)
      → ((q : Question)
          → AreWrittenFor c.connection.nick
              (server_send_map_write ⦃p = answer_protocol q⦄ c (some (respond n q))))
        × ((m : ChannelSetMode)
            → AreWrittenFor c.connection.nick
                (channel_send_map_write c (some (handle_set_mode ch m).2)))
        × ((skip : Bool)
            → AreWrittenFor c.connection.nick (
                channel_send_map_write ⦃p = topic_protocol show_time⦄ c
                  (some (handle_fetch_topic ch skip))))
  unfolding server_send_map_write channel_send_map_write
  answers_addressed n c ch = (
    λ q. written_for c.connection.nick _ (answer-AreFor q (respond n q) c.connection.nick),
    λ m.
        written_for c.connection.nick _
          (mode_list-AreFor (handle_set_mode ch m).2 c.connection.nick),
    λ skip.
        written_for c.connection.nick _
          (topic-AreFor show_time (handle_fetch_topic ch skip) c.connection.nick),
  )
