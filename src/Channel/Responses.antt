-- ===== src/Channel/Responses.antt =====
-- The answers of src/channel/response.rs, with their messages.
use titanirc.Base.{
  Bool, not, Option, none, some, List, [], ◌∷◌, ◌++◌, map, if◌then◌else◌, is_some, Text, text, join,
  values,
}
use titanirc.Irc.{IrcLibrary, Message, Prefix, server_name, Response, response, from_prefix, bare}
use titanirc.Irc.Response.{
  rpl_topic, rpl_topicwhotime, rpl_notopic, rpl_whoreply, rpl_banlist, rpl_endofbanlist,
  rpl_namreply, rpl_endofnames, rpl_inviting, err_useronchannel, err_notonchannel,
  err_bannedfromchan, err_chanoprivsneeded,
}
use titanirc.Permission.{Permission, into_prefix}
use titanirc.Connection.{DateTime, InitiatedConnection, to_nick, to_host_mask}
use titanirc.Channel.{Channel, CurrentChannelTopic, get_user_permissions}

-- `SERVER_NAME` of src/lib.rs
abbrev pub server : Text
server = text "my.cool.server"

-- A reply of the server.
abbrev pub reply : Response → List Text → Message
reply r arguments = from_prefix (server_name server) (response r arguments)

pub record ChannelTopic : Type 0 where
  pub channel_name : Text
  pub topic : Option CurrentChannelTopic
  pub skip_on_none : Bool

-- `ChannelTopic::new`
unfoldable pub channel_topic : Channel → Bool → ChannelTopic
channel_topic c skip = record { channel_name = c.name; topic = c.topic; skip_on_none = skip }

-- `show_time` is `timestamp().to_string()`.
module _ (show_time : DateTime → Text) where
  unfoldable pub topic_lines : Text → Bool → Text → Option CurrentChannelTopic → List Message
  topic_lines name skip for_user (some t) =
      reply rpl_topic (for_user ∷ name ∷ t.topic ∷ [])
      ∷ reply rpl_topicwhotime (for_user ∷ name ∷ t.set_by ∷ show_time t.set_time ∷ [])
      ∷ []
  topic_lines name skip for_user none =
      if not skip
      then reply rpl_notopic (for_user ∷ name ∷ text "No topic is set" ∷ []) ∷ []
      else []

  unfoldable pub topic_messages : ChannelTopic → Text → List Message
  unfolding topic_lines
  topic_messages t for_user = topic_lines t.channel_name t.skip_on_none for_user t.topic

-- `ChannelWhoList` and `ChannelNamesList` hold the same.
pub record MemberList : Type 0 where
  pub channel_name : Text
  pub nick_list : List (Permission × InitiatedConnection)

abbrev pub member : Channel → InitiatedConnection → Permission × InitiatedConnection
member c v = (get_user_permissions c (to_host_mask v), v)

-- `ChannelWhoList::new` and `ChannelNamesList::new`
unfoldable pub member_list : Channel → MemberList
member_list c = record { channel_name = c.name; nick_list = map (member c) (values c.clients) }

-- `ChannelNamesList::empty`
abbrev pub no_members : Text → MemberList
no_members name = record { channel_name = name; nick_list = [] }

abbrev pub who_line : Text → Text → Permission × InitiatedConnection → Message
who_line name for_user (perm, conn) = reply rpl_whoreply (
    for_user
    ∷ name
    ∷ conn.user
    ∷ conn.cloak
    ∷ server
    ∷ conn.nick
    ∷ ((if is_some conn.away then text "G" else text "H") ++ into_prefix perm)
    ∷ text "0"
    ∷ conn.real_name
    ∷ [])

-- `ChannelWhoList::into_messages`
unfoldable pub who_messages : MemberList → Text → List Message
who_messages l for_user = map (who_line l.channel_name for_user) l.nick_list

module _ (irc : IrcLibrary) where
  abbrev pub name_of : Bool → Permission × InitiatedConnection → Text
  name_of with_hostnames (perm, conn) =
      into_prefix perm ++ (if with_hostnames then irc.show_prefix (to_nick conn) else conn.nick)

  -- `ChannelNamesList::into_messages`
  unfoldable pub names_messages : MemberList → Text → Bool → List Message
  names_messages l for_user with_hostnames =
      reply rpl_namreply (
        for_user
        ∷ text "="
        ∷ l.channel_name
        ∷ join (text " ") (map (name_of with_hostnames) l.nick_list)
        ∷ [])
      ∷ reply rpl_endofnames (for_user ∷ text "End of /NAMES list" ∷ [])
      ∷ []

  -- `MissingPrivileges::into_message`
  unfoldable pub missing_privileges : Prefix → Text → Message
  missing_privileges who channel = bare (
      response err_chanoprivsneeded
        (irc.show_prefix who ∷ channel ∷ text "You're not channel operator" ∷ []))

pub record BanList : Type 0 where
  pub channel : Text
  pub list : List Text

abbrev pub ban_line : Text → Text → Text → Message
ban_line channel for_user mask = reply rpl_banlist (for_user ∷ channel ∷ mask ∷ [])

-- `ModeList::Ban` and `BanList::into_messages`
unfoldable pub ban_messages : BanList → Text → List Message
ban_messages l for_user =
    map (ban_line l.channel for_user) l.list
    ++ reply rpl_endofbanlist (for_user ∷ l.channel ∷ text "End of channel ban list" ∷ []) ∷ []

pub data ChannelInviteResult : Type 0 where
  successful no_such_user user_already_on_channel not_on_channel : ChannelInviteResult

-- `ChannelInviteResult::into_message`
unfoldable pub invite_message : ChannelInviteResult → Text → Text → Text → Option Message
invite_message successful invited channel for_user =
    some (reply rpl_inviting (for_user ∷ invited ∷ channel ∷ []))
invite_message no_such_user invited channel for_user = none
invite_message user_already_on_channel invited channel for_user =
    some
      (reply err_useronchannel (for_user ∷ invited ∷ channel ∷ text "is already on channel" ∷ []))
invite_message not_on_channel invited channel for_user =
    some (reply err_notonchannel (for_user ∷ channel ∷ text "You're not on that channel" ∷ []))

pub data ChannelJoinRejectionReason : Type 0 where
  banned : ChannelJoinRejectionReason

-- `ChannelJoinRejectionReason::into_messages`
unfoldable pub rejection_messages : ChannelJoinRejectionReason → Text → List Message
rejection_messages banned for_user =
    reply err_bannedfromchan (for_user ∷ text "Cannot join channel (+b)" ∷ []) ∷ []
