-- ===== src/Channel/Joining.antt =====
-- `Handler<ChannelJoin>` of src/channel.rs.
use titanirc.Base.{
  ◌≤◌, ◌≡◌, refl, ap, ◌↔◌, inl, inr, true, false, some, List, [], ◌∷◌, arith, if◌then◌else◌,
  Bool-cases, Has, lookup, insert, All, nat_eq, nat_beq, nat_beq_iff, lookup-insert, Text,
}
use titanirc.Irc.{IrcLibrary}
use titanirc.HostMaskMap
use titanirc.HostMaskMap.{HostMaskMap, get}
use titanirc.HostMaskMap.Globs.{IsRoot, matches, section_matches, get-insert}
use titanirc.Permission.{Permission, founder, ban, can_join}
use titanirc.Permission.Laws.{rank, rank_inj}
use titanirc.Connection.{DateTime, InitiatedConnection, to_host_mask}
use titanirc.Messages.{ClientAddr, ChannelJoin}
use titanirc.Channel.{Channel, Sent, get_user_permissions}
use titanirc.Channel.Access.{get_user_permissions_bound, can_join-false_iff}
use titanirc.Channel.Responses.{banned}
use titanirc.Channel.Handlers.Membership.{username_mask, JoinResult, joined, rejected, handle_join}

section_matches_self : (s : Text) → section_matches s s ≡ true
section_matches_self [] = refl
section_matches_self (c ∷ s) = ground (arith, nat_beq_iff c c, section_matches_self s)

-- The founder's mask matches every connection of that user.
username_mask-matches :
    (conn : InitiatedConnection) → matches (username_mask conn.user) (to_host_mask conn) ≡ true
unfolding to_host_mask
username_mask-matches conn = ground (arith, section_matches_self conn.user)

pub rank-le-founder : (p : Permission) → rank p ≤ rank founder
rank-le-founder p = ground arith

joined_result :
    (irc : IrcLibrary) (show_time : DateTime → Text) (c : Channel) (msg : ChannelJoin)
    → can_join (get_user_permissions c (to_host_mask msg.connection)) ≡ true
    → (handle_join irc show_time c msg).2 ≡ joined
unfolding handle_join
joined_result irc show_time c msg e = ground arith

rejected_state :
    (irc : IrcLibrary) (show_time : DateTime → Text) (c : Channel) (msg : ChannelJoin)
    → can_join (get_user_permissions c (to_host_mask msg.connection)) ≡ false
    → handle_join irc show_time c msg ≡ (c, [], rejected banned)
unfolding handle_join
rejected_state irc show_time c msg e = ground arith

joined_can_join :
    (irc : IrcLibrary) (show_time : DateTime → Text) (c : Channel) (msg : ChannelJoin)
    → (handle_join irc show_time c msg).2 ≡ joined
    → can_join (get_user_permissions c (to_host_mask msg.connection)) ≡ true
joined_can_join irc show_time c msg ok =
    elim (Bool-cases (can_join (get_user_permissions c (to_host_mask msg.connection)))) [
      | inl t ↦ t
      | inr f ↦ absurd (
          cc (
            ok,
            ap (λ (r : Channel × List Sent × JoinResult). r.2)
                (rejected_state irc show_time c msg f),
          ))
    ]

joined_clients :
    (irc : IrcLibrary) (show_time : DateTime → Text) (c : Channel) (msg : ChannelJoin)
    → can_join (get_user_permissions c (to_host_mask msg.connection)) ≡ true
    → (handle_join irc show_time c msg).0.clients ≡ insert msg.client msg.connection c.clients
unfolding handle_join
joined_clients irc show_time c msg e = ground arith

joined_permissions :
    (irc : IrcLibrary) (show_time : DateTime → Text) (c : Channel) (msg : ChannelJoin)
    → can_join (get_user_permissions c (to_host_mask msg.connection)) ≡ true
    → HostMaskMap.is_empty c.permissions ≡ true
    → (handle_join irc show_time c msg).0.permissions
      ≡ HostMaskMap.insert c.permissions (username_mask msg.connection.user) founder
unfolding handle_join
joined_permissions irc show_time c msg e empty = ground arith

pub at_the_top : (p : Permission) → rank founder ≤ rank p → p ≡ founder
at_the_top p h = rank_inj p founder (omega (arith, rank-le-founder p))

module _ (irc : IrcLibrary) (show_time : DateTime → Text) where
  -- A join is rejected exactly when a stored mask that matches the connection is banned and no
  -- stored mask that matches it has another permission; then the channel is left as it was and
  -- nothing is sent.
  pub join_rejected_iff :
      (c : Channel) (msg : ChannelJoin)
      → (handle_join irc show_time c msg ≡ (c, [], rejected banned)) ↔ (
          Has ban (get c.permissions (to_host_mask msg.connection))
          × All (λ q. q ≡ ban) (get c.permissions (to_host_mask msg.connection)))
  join_rejected_iff c msg =
      let may = can_join-false_iff c (to_host_mask msg.connection) in
      (
        λ e.
            may.0
              (elim (Bool-cases (can_join (get_user_permissions c (to_host_mask msg.connection)))) [
                | inl t ↦ absurd (
                    cc (
                      joined_result irc show_time c msg t,
                      ap (λ (r : Channel × List Sent × JoinResult). r.2) e,
                    ))
                | inr f ↦ f
              ]),
        λ h. rejected_state irc show_time c msg (may.1 h),
      )

  -- Whoever is let in is a member with its connection; the other members stay.
  pub lookup-join :
      (c : Channel) (msg : ChannelJoin) (a : ClientAddr)
      → (handle_join irc show_time c msg).2 ≡ joined
      → lookup a (handle_join irc show_time c msg).0.clients
        ≡ (if nat_beq msg.client a then some msg.connection else lookup a c.clients)
  lookup-join c msg a ok =
      rw (joined_clients irc show_time c msg (joined_can_join irc show_time c msg ok))
        (lookup-insert msg.client a msg.connection c.clients)

  -- The first to join a channel without permissions becomes its founder.
  pub first_join_founds :
      (c : Channel) (msg : ChannelJoin)
      → IsRoot c.permissions
      → HostMaskMap.is_empty c.permissions ≡ true
      → (handle_join irc show_time c msg).2 ≡ joined
      → get_user_permissions (handle_join irc show_time c msg).0 (to_host_mask msg.connection)
        ≡ founder
  first_join_founds c msg root empty ok =
      let conn = msg.connection in
      let may = joined_can_join irc show_time c msg ok in
      let at = joined_permissions irc show_time c msg may empty in
      let stored =
        get-insert c.permissions (username_mask conn.user) (to_host_mask conn) founder root
          (username_mask-matches conn) in
      at_the_top (get_user_permissions (handle_join irc show_time c msg).0 (to_host_mask conn)) (
        get_user_permissions_bound (handle_join irc show_time c msg).0 (to_host_mask conn) founder
          (rw at stored))

  -- Where permissions are stored already, a join changes none of them.
  pub later_join_keeps :
      (c : Channel) (msg : ChannelJoin)
      → HostMaskMap.is_empty c.permissions ≡ false
      → (handle_join irc show_time c msg).0.permissions ≡ c.permissions
  unfolding handle_join
  later_join_keeps c msg filled = ground arith
