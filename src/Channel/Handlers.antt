-- ===== src/Channel/Handlers.antt =====
-- The handlers of src/channel.rs.
pub mod Membership
use titanirc.Base.{
  ℕ, Bool, true, false, not, ◌&&◌, Option, none, some, List, [], ◌∷◌, ◌++◌, map, if◌then◌else◌,
  is_some, keep, find, lookup, insert, remove, contains_key, keys, values, nat_eq, Text, text,
  text_eq, ◌==◌,
}
use mathlib.Core.List.{flat_map}
use titanirc.Irc.{
  IrcLibrary, Message, Command, Prefix, Mode, plus, minus, ChannelMode, bare, from_prefix,
}
use titanirc.Irc.Response.{err_cannotsendtochan}
use titanirc.HostMask
use titanirc.HostMask.{HostMask}
use titanirc.HostMaskMap
use titanirc.HostMaskMap.{HostMaskMap}
use titanirc.Permission
use titanirc.Permission.{
  Permission, ban, normal, founder, permission_beq, can_chatter, can_join, can_set_topic, can_kick,
  can_set_permission, into_mode,
}
use titanirc.Connection.{DateTime, UserId, InitiatedConnection, to_nick, to_host_mask}
use titanirc.Messages.{
  ClientAddr, ChannelId, MessageKind, ToClient, broadcast, kicked_from_channel, Event,
  channel_joined, channel_parted, set_user_channel_permissions, channel_message, ServerDisconnect,
  UserNickChange, ClientAway, ChannelJoin, ChannelPart, ChannelSetMode, ChannelKickUser,
  ChannelUpdateTopic, ChannelMessage, ChannelInvite,
}
use titanirc.Channel.{
  Channel, CurrentChannelTopic, SetUserMode, Sent, to_client, persist, notify_broadcast,
  notify_set_user_mode, get_user_permissions,
}
use titanirc.Channel.Responses.{
  ChannelTopic, channel_topic, topic_messages, MemberList, member_list, names_messages,
  missing_privileges, BanList, ChannelInviteResult, not_on_channel, no_such_user,
  user_already_on_channel, successful, ChannelJoinRejectionReason, banned,
}

-- `client.do_send(Broadcast { message, .. })`
abbrev pub tell : Message → ClientAddr → Sent
tell m client = to_client client (broadcast m)

-- `Actor::started`: the answers of the two requests, `none` for a mailbox error; the second asks
-- for the permissions of a channel id. The flag is `ctx.terminate()`.
unfoldable pub set_channel_id : Channel → Option ChannelId → Channel
set_channel_id c none = c
set_channel_id c (some id) = record c { channel_id = id }

unfoldable pub started :
    Channel → Option ChannelId → (ChannelId → Option (HostMaskMap Permission)) → Channel × Bool
unfolding set_channel_id
started c created fetch =
    let c' = set_channel_id c created in
    elim (fetch c'.channel_id) [
      | some permissions ↦ (record c' { permissions = permissions }, not (is_some created))
      | none ↦ (c', true)
    ]

-- `Handler<Broadcast>`
unfoldable pub handle_broadcast : Channel → Message → Channel × List Sent
handle_broadcast c m = (c, map (tell m) (keys c.clients))

-- `Handler<ClientAway>`
unfoldable pub handle_client_away : Channel → ClientAway → Channel × List Sent
handle_client_away c msg = elim (lookup msg.handle c.clients) [
  | none ↦ (c, [])
  | some conn ↦
      let conn' : InitiatedConnection = record conn { away = msg.message } in
      (
        record c { clients = insert msg.handle conn' c.clients },
        notify_broadcast (from_prefix (to_nick conn') (Command.away conn'.away)) ∷ [],
      )
]

-- `Handler<FetchUserPermission>`
unfoldable pub handle_fetch_user_permission : Channel → HostMask → Permission
handle_fetch_user_permission c mask = get_user_permissions c mask

-- `Handler<ChannelMemberList>` and `Handler<ChannelFetchWhoList>`
unfoldable pub handle_member_list : Channel → MemberList
handle_member_list c = member_list c

-- `Handler<ChannelFetchTopic>`
unfoldable pub handle_fetch_topic : Channel → Bool → ChannelTopic
handle_fetch_topic c skip_on_none = channel_topic c skip_on_none

abbrev pub kind_command : MessageKind → Text → Text → Command
kind_command MessageKind.normal target message = Command.privmsg target message
kind_command MessageKind.notice target message = Command.notice target message

-- The loop that leaves out the sender.
abbrev pub relay : ClientAddr → Message → List ClientAddr → List Sent
relay sender m [] = []
relay sender m (client ∷ rest) =
    if client == sender then relay sender m rest else tell m client ∷ relay sender m rest

abbrev pub user_ids : List InitiatedConnection → List UserId
user_ids cs = map (λ (c : InitiatedConnection). c.user_id) cs

module _ (irc : IrcLibrary) where
  abbrev pub cannot_send : Channel → InitiatedConnection → Message
  cannot_send c sender = bare (
      Command.response err_cannotsendtochan
        (irc.show_prefix (to_nick sender) ∷ c.name ∷ text "Cannot send to channel" ∷ []))

  -- `Handler<ChannelMessage>`
  unfoldable pub handle_message : Channel → ChannelMessage → Channel × List Sent
  handle_message c msg = elim (lookup msg.client c.clients) [
    | none ↦ (c, [])
    | some sender ↦
        if not (can_chatter (get_user_permissions c (to_host_mask sender)))
        then (c, tell (cannot_send c sender) msg.client ∷ [])
        else (
          c,
          persist (
                channel_message c.channel_id (irc.show_prefix (to_nick sender)) msg.message
                  (user_ids (values c.clients)) msg.kind)
              ∷ relay msg.client
                  (from_prefix (to_nick sender) (kind_command msg.kind c.name msg.message))
                  (keys c.clients),
        )
  ]

-- The texts of the masks that are banned.
abbrev pub ban_masks : List (Text × Permission) → List Text
ban_masks [] = []
ban_masks ((k, v) ∷ rest) = if permission_beq v ban then k ∷ ban_masks rest else ban_masks rest

abbrev pub ban_list : Channel → BanList
ban_list c = record { channel = c.name; list = ban_masks (HostMaskMap.iter c.permissions) }

abbrev pub mode_parts : Mode → Bool × ChannelMode × Option Text
mode_parts (plus mode arg) = (true, mode, arg)
mode_parts (minus mode arg) = (false, mode, arg)

-- One round of the loop of `Handler<ChannelSetMode>`: what the mode sends, and whether the loop
-- goes on, breaks, or returns a list.
pub data Round : Type 0 where
  go_on : List Sent → Round
  stop : Round
  return_bans : Round

abbrev pub mode_with_mask : InitiatedConnection → Bool → Permission → HostMask.Parsed → Round
mode_with_mask client add user_mode (HostMask.err e) = go_on []
mode_with_mask client add user_mode (HostMask.ok mask) = go_on (
    notify_set_user_mode
      (record { requester = client; add = add; affected_mask = mask; user_mode = user_mode })
    ∷ [])

abbrev pub mode_round : InitiatedConnection → Bool → Option Permission → Option Text → Round
mode_round client add none arg = go_on []
mode_round client add (some user_mode) none =
    if add && permission_beq user_mode ban then return_bans else stop
mode_round client add (some user_mode) (some arg) =
    mode_with_mask client add user_mode (HostMask.try_from arg)

-- What the loop sends and returns, after a round and with what the later ones come to.
abbrev pub after_round : Round → List Sent × Option BanList → BanList → List Sent × Option BanList
after_round (go_on sent) later bans = (sent ++ later.0, later.1)
after_round stop later bans = ([], none)
after_round return_bans later bans = ([], some bans)

abbrev pub set_modes : Channel → InitiatedConnection → List Mode → List Sent × Option BanList
set_modes c client [] = ([], none)
set_modes c client (mode ∷ modes) =
    let (add, channel_mode, arg) = mode_parts mode in
    let later = set_modes c client modes in
    after_round (mode_round client add (Permission.try_from channel_mode) arg) later (ban_list c)

-- `Handler<ChannelSetMode>`
unfoldable pub handle_set_mode : Channel → ChannelSetMode → Channel × List Sent × Option BanList
handle_set_mode c msg = elim (lookup msg.client c.clients) [
  | none ↦ (c, [], none)
  | some client ↦ let (sent, bans) = set_modes c client msg.modes in (c, sent, bans)
]

-- The permission that a mode change is about to set, `none` where it would do nothing.
abbrev pub new_permission : SetUserMode → Permission → Option Permission
new_permission msg affected =
    if msg.add
    then some msg.user_mode
    else if permission_beq affected msg.user_mode
    then some normal
    else none

abbrev pub mode_notice : Channel → SetUserMode → Option Mode → List Sent
mode_notice c msg none = []
mode_notice c msg (some mode) =
    notify_broadcast (from_prefix (to_nick msg.requester) (Command.channel_mode c.name (mode ∷ [])))
    ∷ []

-- `Handler<SetUserMode>`
unfoldable pub handle_set_user_mode : Channel → SetUserMode → Channel × List Sent
handle_set_user_mode c msg =
    let permissions : Permission = get_user_permissions c (to_host_mask msg.requester) in
    let affected : Permission = get_user_permissions c msg.affected_mask in
    elim (new_permission msg affected) [
      | none ↦ (c, [])
      | some new ↦ if not (can_set_permission permissions new affected) then (c, []) else (
        record c { permissions = HostMaskMap.insert c.permissions msg.affected_mask new },
        persist (set_user_channel_permissions c.channel_id msg.affected_mask new)
            ∷ mode_notice c msg
                (into_mode msg.user_mode msg.add (HostMask.to_string msg.affected_mask)),
      )
    ]

-- `Handler<UserNickChange>`
unfoldable pub handle_nick_change : Channel → UserNickChange → Channel
handle_nick_change c msg =
    if contains_key msg.client c.clients
    then record c {
      clients = insert msg.client (record msg.connection { nick = msg.new_nick }) c.clients;
    }
    else c
