-- ===== src/Channel/Store/Writing.antt =====
-- What the handlers of src/channel.rs write to the database: every change of the permissions.
use titanirc.Base.{
  ◌≡◌, refl, inl, inr, List, [], map, lookup, keys, nat_eq, nat_beq_iff, All, Bool-cases,
  Option-cases, HashMap, contains_key,
}
use titanirc.Irc.{IrcLibrary, Message, from_prefix}
use titanirc.HostMask
use titanirc.HostMask.RoundTrip.{IsValid}
use titanirc.Permission.{Permission, into_mode, can_set_permission, can_chatter}
use titanirc.Connection.{InitiatedConnection, to_host_mask, to_nick}
use titanirc.Messages.{ClientAddr, UserNickChange, ClientAway, ChannelSetMode, ChannelMessage}
use titanirc.Channel.{Channel, SetUserMode, Sent, get_user_permissions}
use titanirc.Channel.Handlers.{
  tell, kind_command, set_modes, new_permission, handle_broadcast, handle_client_away,
  handle_message, handle_set_mode, handle_set_user_mode, handle_nick_change,
}
use titanirc.Channel.Store.{events_of}
use titanirc.Channel.Store.Silence.{events_of-broadcast, events_of-relay, events_of-set_modes}
use titanirc.Channel.Store.Rows.{play_all, HasValidMask}

-- What a handler leaves and sends: each change of the permissions is an event as well.
pub record IsWritten (c : Channel) (r : Channel × List Sent) : Type 0 where
  pub same_name : r.0.name ≡ c.name
  pub same_id : r.0.channel_id ≡ c.channel_id
  pub played : r.0.permissions ≡ play_all c.channel_id c.permissions (events_of r.1)
  pub valid : All HasValidMask (events_of r.1)

-- No permission is changed, and nothing is written.
pub silent-IsWritten :
    (c : Channel) (clients : HashMap ClientAddr InitiatedConnection) (sent : List Sent)
    → events_of sent ≡ []
    → IsWritten c (record c { clients = clients }, sent)
silent-IsWritten c clients sent e = record {
  same_name = refl;
  same_id = refl;
  played = rw e;
  valid = rw e tt;
}

pub broadcast-IsWritten : (c : Channel) (m : Message) → IsWritten c (handle_broadcast c m)
unfolding handle_broadcast
broadcast-IsWritten c m =
    silent-IsWritten c c.clients (map (tell m) (keys c.clients))
      (events_of-broadcast m (keys c.clients))

pub away-IsWritten : (c : Channel) (msg : ClientAway) → IsWritten c (handle_client_away c msg)
unfolding handle_client_away
away-IsWritten c msg = elim (Option-cases (lookup msg.handle c.clients)) [
  | inl e ↦ rw (handle_client_away, e) (silent-IsWritten c c.clients [] refl)
  | inr (conn, e) ↦ rw (handle_client_away, e) (silent-IsWritten c _ _ refl)
]

pub set_mode-IsWritten :
    (c : Channel) (msg : ChannelSetMode)
    → let (c', sent, bans) = handle_set_mode c msg in IsWritten c (c', sent)
unfolding handle_set_mode
set_mode-IsWritten c msg = elim (Option-cases (lookup msg.client c.clients)) [
  | inl e ↦ rw (handle_set_mode, e) (silent-IsWritten c c.clients [] refl)
  | inr (client, e) ↦
      rw (handle_set_mode, e)
        (silent-IsWritten c c.clients (set_modes c client msg.modes).0
          (events_of-set_modes c client msg.modes))
]

pub set_user_mode-IsWritten :
    (c : Channel) (msg : SetUserMode)
    → IsValid msg.affected_mask
    → IsWritten c (handle_set_user_mode c msg)
unfolding handle_set_user_mode
set_user_mode-IsWritten c msg v =
    let mine : Permission = get_user_permissions c (to_host_mask msg.requester) in
    let theirs : Permission = get_user_permissions c msg.affected_mask in
    let mode = into_mode msg.user_mode msg.add (HostMask.to_string msg.affected_mask) in
    let self = (nat_beq_iff c.channel_id c.channel_id).1 refl in
    elim (Option-cases (new_permission msg theirs)) [
      | inl e ↦ rw (handle_set_user_mode, e) (silent-IsWritten c c.clients [] refl)
      | inr (new, e) ↦ elim (Bool-cases (can_set_permission mine new theirs)) [
        | inr refused ↦ rw (handle_set_user_mode, e, refused) (silent-IsWritten c c.clients [] refl)
        | inl yes_ ↦ elim (Option-cases mode) [
          | inl f ↦
              rw (handle_set_user_mode, e, yes_, f)
                (record { same_name = refl; same_id = refl; played = rw self; valid = (v, tt) })
          | inr (shown, f) ↦
              rw (handle_set_user_mode, e, yes_, f)
                (record { same_name = refl; same_id = refl; played = rw self; valid = (v, tt) })
        ]
      ]
    ]

pub nick-IsWritten :
    (c : Channel) (msg : UserNickChange) → IsWritten c (handle_nick_change c msg, [])
unfolding handle_nick_change
nick-IsWritten c msg = elim (Bool-cases (contains_key msg.client c.clients)) [
  | inl e ↦ rw (handle_nick_change, e) (silent-IsWritten c _ [] refl)
  | inr e ↦ rw (handle_nick_change, e) (silent-IsWritten c c.clients [] refl)
]

module _ (irc : IrcLibrary) where
  pub message-IsWritten :
      (c : Channel) (msg : ChannelMessage) → IsWritten c (handle_message irc c msg)
  unfolding handle_message
  message-IsWritten c msg = elim (Option-cases (lookup msg.client c.clients)) [
    | inl e ↦ rw (handle_message, e) (silent-IsWritten c c.clients [] refl)
    | inr (sender, e) ↦
        elim (Bool-cases (can_chatter (get_user_permissions c (to_host_mask sender)))) [
          | inr n ↦ rw (handle_message, e, n) (silent-IsWritten c c.clients _ refl)
          | inl y ↦
              let m = from_prefix (to_nick sender) (kind_command msg.kind c.name msg.message) in
              let quiet = events_of-relay msg.client m (keys c.clients) in
              rw (handle_message, e, y)
                (record {
                  same_name = refl;
                  same_id = refl;
                  played = rw quiet;
                  valid = rw quiet (tt, tt);
                })
        ]
  ]
