-- ===== src/Irc.antt =====
-- The part of the `irc_proto` crate's vocabulary that src/ constructs or matches on. These are
-- the crate's data, named as the source names them; what the crate computes is the parameter
-- `IrcLibrary`. Arguments that the source never reads are left out of the commands.
use titanirc.Base.{ℕ, Bool, Option, none, some, List, Text}

pub data ChannelMode : Type 0 where
  ban voice halfop oper founder : ChannelMode
  -- any other mode of the crate
  other : ℕ → ChannelMode

pub data Mode : Type 0 where
  plus minus : ChannelMode → Option Text → Mode

pub data Prefix : Type 0 where
  server_name : Text → Prefix
  nickname : Text → Text → Text → Prefix

pub data Response : Type 0 where
  rpl_welcome rpl_yourhost rpl_created rpl_myinfo rpl_isupport : Response
  rpl_topic rpl_topicwhotime rpl_notopic rpl_whoreply rpl_endofwho rpl_banlist rpl_endofbanlist :
      Response
  rpl_namreply rpl_endofnames rpl_inviting err_useronchannel err_notonchannel : Response
  err_bannedfromchan err_chanoprivsneeded err_cannotsendtochan err_nosuchnick err_nicknameinuse :
      Response
  rpl_whoisuser rpl_whoisserver rpl_whoisidle rpl_whoischannels rpl_away rpl_endofwhois : Response
  rpl_adminme rpl_adminloc1 rpl_adminloc2 rpl_adminemail : Response
  rpl_luserclient rpl_luserop rpl_luserchannels rpl_luserme rpl_localusers rpl_globalusers :
      Response
  rpl_motdstart rpl_motd rpl_endofmotd err_nomotd rpl_liststart rpl_list rpl_listend : Response
  err_unknowncommand rpl_nowaway rpl_unaway rpl_version rpl_time rpl_info rpl_endofinfo : Response
  err_saslalready rpl_saslmechs rpl_saslsuccess rpl_loggedin err_saslfail err_saslabort : Response

pub data CapSubCommand : Type 0 where
  ls list req ack nak : CapSubCommand
  other : CapSubCommand

pub data Command : Type 0 where
  pass : Text → Command
  nick : Text → Command
  user : Text → Text → Text → Command
  cap : Option Text → CapSubCommand → Option Text → Option Text → Command
  authenticate : Text → Command
  user_mode : Command
  quit : Option Text → Command
  join : Text → Option Text → Option Text → Command
  part : Text → Option Text → Command
  channel_mode : Text → List Mode → Command
  topic : Text → Option Text → Command
  names : Option Text → Command
  list : Command
  invite : Text → Text → Command
  kick : Text → Text → Option Text → Command
  privmsg notice : Text → Text → Command
  motd lusers version time admin info : Command
  who whois : Option Text → Command
  whowas : Command
  kill : Text → Text → Command
  ping pong : Text → Option Text → Command
  away : Option Text → Command
  rehash die restart : Command
  wallops : Text → Command
  userhost sajoin samode : Command
  sanick : Text → Text → Command
  sapart : Command
  saquit : Text → Text → Command
  account metadata monitor batch chghost : Command
  error : Text → Command
  response : Response → List Text → Command
  raw : Text → List Text → Command
  -- any other command of the crate
  other : Command

-- `Tag(key, value)`
abbrev pub Tag : Type 0
Tag = Text × Option Text

pub record Message : Type 0 where
  pub tags : Option (List Tag)
  pub prefix : Option Prefix
  pub command : Command

-- What the source calls of the crate.
pub record IrcLibrary : Type 0 where
  -- `Prefix`'s `Display` and `Prefix::new_from_str`
  pub show_prefix : Prefix → Text
  pub prefix_from_str : Text → Prefix
  -- `ChannelExt::is_channel_name`
  pub is_channel_name : Text → Bool
  -- `Message::source_nickname`
  pub source_nickname : Message → Option Text

-- A message without tags or prefix, and one from the server or a user.
abbrev pub bare : Command → Message
bare c = record { tags = none; prefix = none; command = c }

abbrev pub from_prefix : Prefix → Command → Message
from_prefix p c = record { tags = none; prefix = some p; command = c }
