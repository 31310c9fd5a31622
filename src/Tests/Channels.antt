-- ===== src/Tests/Channels.antt =====
-- The handlers of src/channel.rs on concrete data.
use titanirc.Base.{
  ◌≡◌, ◌≢◌, ◌↔◌, ◌≤◌, ◌<◌, ◌⊎◌, refl, true, arith, some, text, nat_eq, lookup, contains_key, Has,
  values, [], ◌∷◌,
}
use titanirc.Irc.{from_prefix}
use titanirc.HostMaskMap.{get, get_inner, insert, insert_fuel, new}
use titanirc.HostMaskMap.Globs.{IsRoot, matches, insert-IsRoot, new-IsRoot}
use titanirc.Permission.{founder, operator, max, max_of, cmp, can_chatter, can_set_permission}
use titanirc.Permission.Laws.{rank}
use titanirc.Connection.{to_host_mask, to_nick}
use titanirc.Messages.{MessageKind, broadcast, ChannelMessage, channel_message}
use titanirc.Channel.{SetUserMode, get_user_permissions, to_client}
use titanirc.Channel.Escalation.{set_user_mode_no_escalation, set_user_mode_grants}
use titanirc.Channel.Delivery.{message_reaches, message_heard_only}
use titanirc.Channel.Handlers.{kind_command, handle_set_user_mode, handle_message, user_ids}
use titanirc.Channel.Store.{events_of}
use titanirc.Channel.Handlers.Membership.{username_mask}
use titanirc.Tests.Samples.{sample_irc, sample_channel, alice, bob, bob_mask, al_addr, bo_addr}

alice_founder : get_user_permissions sample_channel (to_host_mask alice) ≡ founder
unfolding get_user_permissions get get_inner insert insert_fuel max max_of cmp to_host_mask
alice_founder = refl

sample-IsRoot : IsRoot sample_channel.permissions
sample-IsRoot = insert-IsRoot new (username_mask alice.user) founder new-IsRoot

-- Alice makes Bob an operator.
abbrev op_bob : SetUserMode
op_bob = record { requester = alice; add = true; affected_mask = bob_mask; user_mode = operator }

alice_may :
    can_set_permission
      (get_user_permissions sample_channel (to_host_mask op_bob.requester))
      operator
      (get_user_permissions sample_channel op_bob.affected_mask)
    ≡ true
unfolding get_user_permissions get get_inner insert insert_fuel max max_of cmp to_host_mask
    can_set_permission
alice_may = refl

set_user_mode_no_escalation_example :
    (rank (get_user_permissions (handle_set_user_mode sample_channel op_bob).0 (to_host_mask bob))
      ≤ rank (get_user_permissions sample_channel (to_host_mask bob)))
    ⊎ (rank (get_user_permissions (handle_set_user_mode sample_channel op_bob).0 (to_host_mask bob))
        < rank (get_user_permissions sample_channel (to_host_mask alice)))
set_user_mode_no_escalation_example =
    set_user_mode_no_escalation sample_channel op_bob (to_host_mask bob) sample-IsRoot

bob-matches : matches op_bob.affected_mask (to_host_mask bob) ≡ true
unfolding to_host_mask
bob-matches = refl

set_user_mode_grants_example :
    rank operator
    ≤ rank (get_user_permissions (handle_set_user_mode sample_channel op_bob).0 (to_host_mask bob))
set_user_mode_grants_example =
    set_user_mode_grants sample_channel op_bob (to_host_mask bob) operator sample-IsRoot refl
      alice_may bob-matches

-- Bob says something.
abbrev hello : ChannelMessage
hello = record { client = 2; kind = MessageKind.normal; message = text "hi" }

pub alice_chatters : can_chatter (get_user_permissions sample_channel (to_host_mask alice)) ≡ true
unfolding get_user_permissions get get_inner insert insert_fuel max max_of cmp to_host_mask
    can_chatter
alice_chatters = refl

bob_chatters : can_chatter (get_user_permissions sample_channel (to_host_mask bob)) ≡ true
unfolding get_user_permissions get get_inner insert insert_fuel max max_of cmp to_host_mask
    can_chatter
bob_chatters = refl

message_reaches_example :
    (Has
        (to_client 1 (
          broadcast
            (from_prefix (to_nick bob) (kind_command MessageKind.normal (text "#a") (text "hi")))))
        (handle_message sample_irc sample_channel hello).1
      ↔ ((broadcast
              (from_prefix (to_nick bob) (kind_command MessageKind.normal (text "#a") (text "hi")))
            ≡ broadcast (
                from_prefix
                  (to_nick bob)
                  (kind_command MessageKind.normal (text "#a") (text "hi"))))
          × (contains_key 1 sample_channel.clients ≡ true)
          × (al_addr ≢ bo_addr)))
    × (events_of (handle_message sample_irc sample_channel hello).1
        ≡ channel_message sample_channel.channel_id
            (sample_irc.show_prefix (to_nick bob))
            (text "hi")
            (user_ids (values sample_channel.clients))
            MessageKind.normal
          ∷ [])
message_reaches_example =
    message_reaches sample_irc sample_channel hello bob 1
      (broadcast
        (from_prefix (to_nick bob) (kind_command MessageKind.normal (text "#a") (text "hi"))))
      refl bob_chatters

al_ne_bo : al_addr ≢ bo_addr
al_ne_bo = omega arith

message_heard_only_example :
    (sender : _) × (lookup 2 sample_channel.clients ≡ some sender)
    × (can_chatter (get_user_permissions sample_channel (to_host_mask sender)) ≡ true)
    × (contains_key 1 sample_channel.clients ≡ true)
    × ((handle_message sample_irc sample_channel hello).0 ≡ sample_channel)
message_heard_only_example =
    message_heard_only sample_irc sample_channel hello 1
      (broadcast
        (from_prefix (to_nick bob) (kind_command MessageKind.normal (text "#a") (text "hi"))))
      al_ne_bo (message_reaches_example.0.1 (refl, refl, al_ne_bo))
