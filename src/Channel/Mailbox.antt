-- ===== src/Channel/Mailbox.antt =====
-- The mailbox of the actor of src/channel.rs: the messages that change its state, one after
-- another.
use titanirc.Base.{◌≡◌, Bool, true, false, none, List, [], ◌∷◌, arith, nat_eq, Text}
use titanirc.Irc.{IrcLibrary, Message}
use titanirc.HostMaskMap
use titanirc.Connection.{DateTime}
use titanirc.Messages.{
  ServerDisconnect, UserNickChange, ClientAway, ChannelJoin, ChannelPart, ChannelSetMode,
  ChannelKickUser, ChannelUpdateTopic, ChannelMessage,
}
use titanirc.Channel.{Channel, SetUserMode, Sent}
use titanirc.Channel.Handlers.{
  handle_broadcast, handle_client_away, handle_message, handle_set_mode, handle_set_user_mode,
  handle_nick_change,
}
use titanirc.Channel.Handlers.Membership.{
  handle_join, handle_update_topic, handle_kick, handle_part, handle_disconnect,
}

-- The messages with a state to change or something to send.
pub data Request : Type 0 where
  broadcasting : Message → Request
  going_away : ClientAway → Request
  messaging : ChannelMessage → Request
  setting_mode : ChannelSetMode → Request
  setting_user_mode : SetUserMode → Request
  changing_nick : UserNickChange → Request
  joining : ChannelJoin → Request
  updating_topic : DateTime → ChannelUpdateTopic → Request
  kicking : ChannelKickUser → Request
  parting : ChannelPart → Request
  disconnecting : ServerDisconnect → Request

-- The requests by which a client may leave.
abbrev pub is_leaving : Request → Bool
is_leaving (kicking msg) = true
is_leaving (parting msg) = true
is_leaving (disconnecting msg) = true
is_leaving _ = false

-- `Server`'s `Channel { .. }`, before `started`.
abbrev pub new_channel : Text → Channel
new_channel name = record {
  name = name;
  permissions = HostMaskMap.new;
  clients = [];
  topic = none;
  channel_id = 0;
}

module _ (irc : IrcLibrary) (show_time : DateTime → Text) where
  unfoldable pub step : Channel → Request → Channel × List Sent
  step c (broadcasting msg) = handle_broadcast c msg
  step c (going_away msg) = handle_client_away c msg
  step c (messaging msg) = handle_message irc c msg
  step c (setting_mode msg) = let (c', sent, bans) = handle_set_mode c msg in (c', sent)
  step c (setting_user_mode msg) = handle_set_user_mode c msg
  step c (changing_nick msg) = (handle_nick_change c msg, [])
  step c (joining msg) = let (c', sent, result) = handle_join irc show_time c msg in (c', sent)
  step c (updating_topic now msg) = handle_update_topic irc show_time now c msg
  step c (kicking msg) = handle_kick irc show_time c msg
  step c (parting msg) = handle_part c msg
  step c (disconnecting msg) = handle_disconnect c msg

  unfoldable pub run : Channel → List Request → Channel
  run c [] = c
  run c (r ∷ rs) = run (step c r).0 rs

  pub message_state : (c : Channel) (msg : ChannelMessage) → (handle_message irc c msg).0 ≡ c
  unfolding handle_message
  message_state c msg = ground arith

  pub set_mode_state : (c : Channel) (msg : ChannelSetMode) → (handle_set_mode c msg).0 ≡ c
  unfolding handle_set_mode
  set_mode_state c msg = ground arith
