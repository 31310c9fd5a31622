-- ===== src/Channel/Founders.antt =====
-- Who has the permission of a founder in a channel of src/channel.rs, after its first member has
-- joined.
use titanirc.Base.{
  ◌≡◌, refl, inl, inr, true, false, none, List, [], ◌∷◌, arith, Text, Bool-cases, nat_eq,
}
use titanirc.Irc.{IrcLibrary}
use titanirc.HostMask.{HostMask}
use titanirc.HostMaskMap
use titanirc.HostMaskMap.{HostMaskMap, Key, Children, host_mask_map, nil, entry, nick, insert}
use titanirc.HostMaskMap.Paths.{path, path_beq_iff}
use titanirc.HostMaskMap.Stored.{stored, stored-empty}
use titanirc.HostMaskMap.Insertion.{stored-insert}
use titanirc.HostMaskMap.Globs.{IsRoot}
use titanirc.Permission.{founder}
use titanirc.Connection.{DateTime, to_host_mask}
use titanirc.Messages.{
  ClientAway, UserNickChange, ChannelPart, ServerDisconnect, ChannelKickUser, ChannelUpdateTopic,
}
use titanirc.Channel.{Channel, SetUserMode, get_user_permissions}
use titanirc.Channel.Handlers.{
  handle_broadcast, handle_client_away, handle_set_user_mode, handle_nick_change,
}
use titanirc.Channel.Handlers.Membership.{
  handle_update_topic, handle_kick, handle_part, handle_disconnect,
}
use titanirc.Channel.Escalation.{
  set_user_mode_outcome, set_user_mode_no_escalation, set_user_mode_keeps,
}
use titanirc.Channel.Joining.{at_the_top, rank-le-founder, later_join_keeps}
use titanirc.Channel.Mailbox.{
  Request, broadcasting, going_away, messaging, setting_mode, setting_user_mode, changing_nick,
  joining, updating_topic, kicking, parting, disconnecting, step, run, message_state,
  set_mode_state,
}

empty_stores :
    {T : Type 0} (map : HostMaskMap T) (q : List Key)
    → HostMaskMap.is_empty map ≡ true
    → stored map q ≡ none
empty_stores (host_mask_map nil m) q e = stored-empty m q
empty_stores (host_mask_map (entry k n cs) m) q e = absurd (cc e)

insert_fills :
    {T : Type 0} (map : HostMaskMap T) (mask : HostMask) (v : T)
    → IsRoot map
    → HostMaskMap.is_empty (insert map mask v) ≡ false
insert_fills map mask v root = elim (Bool-cases (HostMaskMap.is_empty (insert map mask v))) [
  | inr filled ↦ filled
  | inl empty ↦
      let at = path nick mask in
      let there =
        rw (root.at_nick, (path_beq_iff at at).1 refl) at
          (stored-insert map mask v at root.well_formed) in
      absurd (cc (there, empty_stores (insert map mask v) at empty))
]

-- A channel that has permissions stored.
pub record IsFounded (c : Channel) : Type 0 where
  pub rooted : IsRoot c.permissions
  pub filled : HostMaskMap.is_empty c.permissions ≡ false

-- What a request may do: nobody becomes a founder by it.
pub record KeepsFounders (c c' : Channel) : Type 0 where
  pub founded : IsFounded c'
  pub before :
      (mask : HostMask)
      → get_user_permissions c' mask ≡ founder
      → get_user_permissions c mask ≡ founder

same-KeepsFounders :
    (c c' : Channel) → c'.permissions ≡ c.permissions → IsFounded c → KeepsFounders c c'
unfolding get_user_permissions
same-KeepsFounders c c' same f = record {
  founded = record { rooted = rw same f.rooted; filled = rw same f.filled };
  before = λ mask e. rw (← same) e;
}

set_user_mode-KeepsFounders :
    (c : Channel) (msg : SetUserMode) → IsFounded c → KeepsFounders c (handle_set_user_mode c msg).0
set_user_mode-KeepsFounders c msg f = record {
  founded = record {
    rooted = (set_user_mode_keeps c msg f.rooted).0;
    filled = elim (set_user_mode_outcome c msg) [
      | inl same ↦ rw same f.filled
      | inr (new, e, half, below, above, changed) ↦
          rw changed (insert_fills c.permissions msg.affected_mask new f.rooted)
    ];
  };
  before = λ mask top.
      let mine = rank-le-founder (get_user_permissions c (to_host_mask msg.requester)) in
      at_the_top (get_user_permissions c mask)
        (elim (set_user_mode_no_escalation c msg mask f.rooted) [
          | inl kept ↦ rw top at kept
          | inr below ↦ absurd (omega (arith, mine, rw top at below))
        ]);
}

away_permissions :
    (c : Channel) (m : ClientAway) → (handle_client_away c m).0.permissions ≡ c.permissions
unfolding handle_client_away
away_permissions c m = ground arith

nick_permissions :
    (c : Channel) (m : UserNickChange) → (handle_nick_change c m).permissions ≡ c.permissions
unfolding handle_nick_change
nick_permissions c m = ground arith

part_permissions : (c : Channel) (m : ChannelPart) → (handle_part c m).0.permissions ≡ c.permissions
unfolding handle_part
part_permissions c m = ground arith

disconnect_permissions :
    (c : Channel) (m : ServerDisconnect) → (handle_disconnect c m).0.permissions ≡ c.permissions
unfolding handle_disconnect
disconnect_permissions c m = ground arith

module _ (irc : IrcLibrary) (show_time : DateTime → Text) where
  topic_permissions :
      (now : DateTime) (c : Channel) (m : ChannelUpdateTopic)
      → (handle_update_topic irc show_time now c m).0.permissions ≡ c.permissions
  unfolding handle_update_topic
  topic_permissions now c m = ground arith

  kick_permissions :
      (c : Channel) (m : ChannelKickUser)
      → (handle_kick irc show_time c m).0.permissions ≡ c.permissions
  unfolding handle_kick
  kick_permissions c m = ground arith

  step-KeepsFounders :
      (c : Channel) (r : Request) → IsFounded c → KeepsFounders c (step irc show_time c r).0
  unfolding step handle_broadcast
  step-KeepsFounders c (broadcasting m) f = same-KeepsFounders c c refl f
  step-KeepsFounders c (going_away m) f = same-KeepsFounders c _ (away_permissions c m) f
  step-KeepsFounders c (messaging m) f =
      rw (message_state irc show_time c m) (same-KeepsFounders c c refl f)
  step-KeepsFounders c (setting_mode m) f =
      rw (set_mode_state irc show_time c m) (same-KeepsFounders c c refl f)
  step-KeepsFounders c (setting_user_mode m) f = set_user_mode-KeepsFounders c m f
  step-KeepsFounders c (changing_nick m) f = same-KeepsFounders c _ (nick_permissions c m) f
  step-KeepsFounders c (joining m) f =
      same-KeepsFounders c _ (later_join_keeps irc show_time c m f.filled) f
  step-KeepsFounders c (updating_topic now m) f =
      same-KeepsFounders c _ (topic_permissions now c m) f
  step-KeepsFounders c (kicking m) f = same-KeepsFounders c _ (kick_permissions c m) f
  step-KeepsFounders c (parting m) f = same-KeepsFounders c _ (part_permissions c m) f
  step-KeepsFounders c (disconnecting m) f = same-KeepsFounders c _ (disconnect_permissions c m) f

  -- Once a channel has permissions stored, in a trie of the right shape, nobody becomes its founder:
  -- whatever sequence of joins, mode changes and other messages it handles, a mask that has the
  -- permission of a founder afterwards had it before.
  pub founders_fixed :
      (c : Channel) (rs : List Request) (mask : HostMask)
      → IsRoot c.permissions
      → HostMaskMap.is_empty c.permissions ≡ false
      → get_user_permissions (run irc show_time c rs) mask ≡ founder
      → get_user_permissions c mask ≡ founder
  unfolding run
  founders_fixed c [] mask root filled e = e
  founders_fixed c (r ∷ rs) mask root filled e =
      let k = step-KeepsFounders c r (record { rooted = root; filled = filled }) in
      k.before mask
        (founders_fixed (step irc show_time c r).0 rs mask k.founded.rooted k.founded.filled e)
