-- ===== src/Channel/Store/Turns.antt =====
-- What every message to the channel of src/channel.rs writes to the database.
use titanirc.Base.{nat_eq, Text}
use titanirc.Irc.{IrcLibrary}
use titanirc.HostMask.RoundTrip.{IsValid}
use titanirc.Connection.{DateTime}
use titanirc.Channel.{Channel}
use titanirc.Channel.Handlers.Membership.{username_mask}
use titanirc.Channel.Mailbox.{
  Request, broadcasting, going_away, messaging, setting_mode, setting_user_mode, changing_nick,
  joining, updating_topic, kicking, parting, disconnecting, step,
}
use titanirc.Channel.Store.Writing.{
  IsWritten, broadcast-IsWritten, away-IsWritten, set_mode-IsWritten, set_user_mode-IsWritten,
  nick-IsWritten, message-IsWritten,
}
use titanirc.Channel.Store.Entering.{
  part-IsWritten, disconnect-IsWritten, topic-IsWritten, kick-IsWritten, join-IsWritten,
}

-- Masks that are set or founded are ones that the parser reads.
abbrev pub AsksValid : Request → Type 0
AsksValid (setting_user_mode msg) = IsValid msg.affected_mask
AsksValid (joining msg) = IsValid (username_mask msg.connection.user)
AsksValid _ = Unit

module _ (irc : IrcLibrary) (show_time : DateTime → Text) where
  -- Every message to the channel writes each change of the permissions to the database.
  pub step-IsWritten :
      (c : Channel) (r : Request) → AsksValid r → IsWritten c (step irc show_time c r)
  unfolding step
  step-IsWritten c (broadcasting msg) v = broadcast-IsWritten c msg
  step-IsWritten c (going_away msg) v = away-IsWritten c msg
  step-IsWritten c (messaging msg) v = message-IsWritten irc c msg
  step-IsWritten c (setting_mode msg) v = set_mode-IsWritten c msg
  step-IsWritten c (setting_user_mode msg) v = set_user_mode-IsWritten c msg v
  step-IsWritten c (changing_nick msg) v = nick-IsWritten c msg
  step-IsWritten c (joining msg) v = join-IsWritten irc show_time c msg v
  step-IsWritten c (updating_topic now msg) v = topic-IsWritten irc show_time now c msg
  step-IsWritten c (kicking msg) v = kick-IsWritten irc show_time c msg
  step-IsWritten c (parting msg) v = part-IsWritten c msg
  step-IsWritten c (disconnecting msg) v = disconnect-IsWritten c msg
