-- ===== src/Server/Responses.antt =====
-- The answers of src/server/response.rs, with their messages.
use titanirc.Base.{
  ℕ, Bool, false, not, Option, none, some, List, [], ◌∷◌, ◌++◌, map, if◌then◌else◌, unwrap_or,
  is_empty, Text, text, join, split, show_nat, trim,
}
use mathlib.Core.List.{flat_map}
use titanirc.Irc.{Message, Command, server_name, from_prefix}
use titanirc.Irc.Response.{
  err_nosuchnick, rpl_endofwho, rpl_whoisuser, rpl_whoisserver, rpl_whoisidle, rpl_whoischannels,
  rpl_away, rpl_endofwhois, rpl_adminme, rpl_adminloc1, rpl_adminloc2, rpl_adminemail,
  rpl_luserclient, rpl_luserop, rpl_luserchannels, rpl_luserme, rpl_localusers, rpl_globalusers,
  rpl_motdstart, rpl_motd, rpl_endofmotd, err_nomotd, rpl_liststart, rpl_list, rpl_listend,
}
use titanirc.HostMask.{HostMask, to_string}
use titanirc.Permission.{Permission, into_prefix}
use titanirc.Connection.{DateTime, SocketAddr, InitiatedConnection, UserMode, show_user_mode}
use titanirc.Channel.Responses.{server, reply, MemberList, who_messages}

-- What the source calls of `chrono` and `std::net`: a time's seconds since the epoch and its
-- `Display`, and the canonical form of an address.
pub record Printing : Type 0 where
  pub show_timestamp : DateTime → Text
  pub show_date : DateTime → Text
  pub show_ip : SocketAddr → Text

-- A reply by number, of the macro's second form.
abbrev pub raw_reply : Text → List Text → Message
raw_reply code arguments = from_prefix (server_name server) (Command.raw code arguments)

pub record Whois : Type 0 where
  pub query : Text
  pub conn : Option InitiatedConnection
  pub channels : List (Permission × Text)

abbrev pub channel_prefixed : Permission × Text → Text
channel_prefixed (perm, channel) = into_prefix perm ++ channel

-- `conn.mode.is_empty()`
abbrev pub mode_is_empty : UserMode → Bool
mode_is_empty m = if m.wallops then false else not m.oper

module _ (printing : Printing) where
  abbrev pub whois_host : InitiatedConnection → Text
  whois_host c =
      text "is connecting from "
      ++ (c.user
          ++ (text "@"
              ++ (unwrap_or c.resolved_host (printing.show_ip c.host)
                  ++ (text " " ++ printing.show_ip c.host))))

  abbrev pub whois_mode : InitiatedConnection → Text → List Message
  whois_mode c for_user =
      if not (mode_is_empty c.mode)
      then raw_reply (text "379")
          (for_user ∷ c.nick ∷ (text "is using modes " ++ show_user_mode c.mode) ∷ [])
        ∷ []
      else []

  abbrev pub whois_away : Option Text → Text → Text → List Message
  whois_away none nick for_user = []
  whois_away (some msg) nick for_user = reply rpl_away (for_user ∷ nick ∷ msg ∷ []) ∷ []

  abbrev pub whois_lines : InitiatedConnection → Text → Text → List Message
  whois_lines c channels for_user =
      raw_reply (text "307") (for_user ∷ c.nick ∷ text "has identified for this nick" ∷ [])
      ∷ reply rpl_whoisuser (for_user ∷ c.nick ∷ c.user ∷ c.cloak ∷ text "*" ∷ c.real_name ∷ [])
      ∷ reply rpl_whoisserver (for_user ∷ c.nick ∷ server ∷ server ∷ [])
      ∷ reply rpl_whoisidle (
          for_user
          ∷ c.nick
          ∷ text "0"
          ∷ printing.show_timestamp c.at
          ∷ text "seconds idle, signon time"
          ∷ [])
      ∷ reply rpl_whoischannels (for_user ∷ c.nick ∷ channels ∷ [])
      ∷ raw_reply (text "330") (for_user ∷ c.nick ∷ c.user ∷ text "is logged in as" ∷ [])
      ∷ raw_reply (text "378") (for_user ∷ c.nick ∷ whois_host c ∷ [])
      ∷ (whois_mode c for_user
          ++ (whois_away c.away c.nick for_user
              ++ reply rpl_endofwhois (for_user ∷ c.nick ∷ text "End of /WHOIS list" ∷ []) ∷ []))

  -- `Whois::into_messages`
  unfoldable pub whois_messages : Whois → Text → List Message
  whois_messages w for_user = elim w.conn [
    | none ↦ reply err_nosuchnick (for_user ∷ w.query ∷ text "No such nick" ∷ []) ∷ []
    | some c ↦ whois_lines c (join (text " ") (map channel_prefixed w.channels)) for_user
  ]

-- `NoSuchNick::into_messages`; the record is its nick.
unfoldable pub no_such_nick_messages : Text → Text → List Message
no_such_nick_messages nick for_user =
    reply err_nosuchnick (for_user ∷ nick ∷ text "No such nick" ∷ []) ∷ []

pub record WhoList : Type 0 where
  pub list : List MemberList
  pub query : Text

-- `WhoList::into_messages`
unfoldable pub who_list_messages : WhoList → Text → List Message
who_list_messages w for_user =
    flat_map (λ (v : MemberList). who_messages v for_user) w.list
    ++ reply rpl_endofwho (for_user ∷ w.query ∷ text "End of WHO list" ∷ []) ∷ []

pub record AdminInfo : Type 0 where
  pub line1 : Text
  pub line2 : Text
  pub email : Text

-- `AdminInfo::into_messages`
unfoldable pub admin_messages : AdminInfo → Text → List Message
admin_messages a for_user =
    reply rpl_adminme (for_user ∷ server ∷ text "Administrative info" ∷ [])
    ∷ reply rpl_adminloc1 (for_user ∷ a.line1 ∷ [])
    ∷ reply rpl_adminloc2 (for_user ∷ a.line2 ∷ [])
    ∷ reply rpl_adminemail (for_user ∷ a.email ∷ [])
    ∷ []

pub record ListUsers : Type 0 where
  pub current_clients : ℕ
  pub max_clients : ℕ
  pub operators_online : ℕ
  pub channels_formed : ℕ

abbrev pub user_counts : Text → ℕ → ℕ → Text
user_counts who current most =
    text "Current "
    ++ (who ++ (text " users " ++ (show_nat current ++ (text ", max " ++ show_nat most))))

-- `ListUsers::into_messages`
unfoldable pub list_users_messages : ListUsers → Text → List Message
list_users_messages l for_user =
    reply rpl_luserclient (
      for_user
      ∷ (text "There are "
          ++ (show_nat l.current_clients ++ text " users and 0 invisible on 1 servers"))
      ∷ [])
    ∷ reply rpl_luserop (for_user ∷ text "0" ∷ text "operator(s) online" ∷ [])
    ∷ reply rpl_luserchannels (for_user ∷ show_nat l.channels_formed ∷ text "channels formed" ∷ [])
    ∷ reply rpl_luserme (
        for_user
        ∷ (text "I have " ++ (show_nat l.current_clients ++ text " clients and 1 servers"))
        ∷ [])
    ∷ reply rpl_localusers (
        for_user
        ∷ show_nat l.current_clients
        ∷ show_nat l.max_clients
        ∷ user_counts (text "local") l.current_clients l.max_clients
        ∷ [])
    ∷ reply rpl_globalusers (
        for_user
        ∷ show_nat l.current_clients
        ∷ show_nat l.max_clients
        ∷ user_counts (text "global") l.current_clients l.max_clients
        ∷ [])
    ∷ []

abbrev pub motd_line : Text → Text → Message
motd_line for_user line = reply rpl_motd (for_user ∷ line ∷ [])

-- `Motd::into_messages`; the record is its text.
unfoldable pub motd_messages : Option Text → Text → List Message
motd_messages none for_user = reply err_nomotd (for_user ∷ text "MOTD File is missing" ∷ []) ∷ []
motd_messages (some motd) for_user =
    reply rpl_motdstart (for_user ∷ (text "- " ++ (server ++ text " Message of the day -")) ∷ [])
    ∷ (map (motd_line for_user) (split 10 (trim motd))
        ++ reply rpl_endofmotd (for_user ∷ text "End of /MOTD command." ∷ []) ∷ [])

pub record ChannelListItem : Type 0 where
  pub channel_name : Text
  pub client_count : ℕ
  pub topic : Option Text

abbrev pub list_line : Text → ChannelListItem → Message
list_line for_user item =
    reply rpl_list
      (for_user ∷ item.channel_name ∷ show_nat item.client_count ∷ unwrap_or item.topic [] ∷ [])

-- `ChannelList::into_messages`; the record is its list.
unfoldable pub channel_list_messages : List ChannelListItem → Text → List Message
channel_list_messages members for_user =
    reply rpl_liststart (for_user ∷ text "Channel" ∷ text "Users  Name" ∷ [])
    ∷ (map (list_line for_user) members
        ++ reply rpl_listend (for_user ∷ text "End of /LIST" ∷ []) ∷ [])

pub record ServerBan : Type 0 where
  pub mask : HostMask
  pub requester : Text
  pub reason : Option Text
  pub created : DateTime
  pub expires : Option DateTime

-- `ServerListBanEntry` of src/persistence/events.rs. A time is the number of its nanoseconds.
pub record ServerListBanEntry : Type 0 where
  pub mask : HostMask
  pub requester : Text
  pub reason : Text
  pub created_timestamp : DateTime
  pub expires_timestamp : Option DateTime

-- `From<ServerListBanEntry> for ServerBan`
unfoldable pub ban_from_entry : ServerListBanEntry → ServerBan
ban_from_entry e = record {
  mask = e.mask;
  requester = e.requester;
  reason = (if is_empty e.reason then none else some e.reason);
  created = e.created_timestamp;
  expires = e.expires_timestamp;
}

module _ (printing : Printing) where
  abbrev pub expiry : Option DateTime → Text
  expiry none = text "never"
  expiry (some t) = printing.show_date t

  -- `ServerBan::into_messages`
  unfoldable pub ban_entry_messages : ServerBan → Text → List Message
  ban_entry_messages b for_user =
      raw_reply (text "216") (
        for_user
        ∷ (to_string b.mask
            ++ (text " by "
                ++ (b.requester
                    ++ (text " ("
                        ++ (unwrap_or b.reason (text "no reason given")
                            ++ (text "), created "
                                ++ (printing.show_date b.created
                                    ++ (text ", expires " ++ expiry b.expires))))))))
        ∷ [])
      ∷ []

pub data ConnectionValidated : Type 0 where
  allowed : ConnectionValidated
  reject : Text → ConnectionValidated
