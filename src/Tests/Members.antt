-- ===== src/Tests/Members.antt =====
-- Joining and leaving a channel of src/channel.rs, on concrete data.
use titanirc.Base.{
  ◌≡◌, ◌↔◌, ◌≤◌, ◌⊎◌, refl, true, some, none, List, [], ◌∷◌, text, nat_eq, lookup, contains_key,
  remove, All, Has,
}
use titanirc.HostMaskMap.{get, get_inner, insert, insert_fuel, new}
use titanirc.HostMaskMap.Globs.{new-IsRoot, insert-IsRoot}
use titanirc.Permission.{founder, half_operator, ban, max, max_of, cmp, can_join}
use titanirc.Permission.Laws.{rank}
use titanirc.Connection.{InitiatedConnection, to_host_mask}
use titanirc.Messages.{ClientAddr, kicked_from_channel, ChannelKickUser, ChannelPart}
use titanirc.Channel.{Channel, Sent, to_client, get_user_permissions}
use titanirc.Channel.Responses.{banned}
use titanirc.Channel.Handlers.{tell}
use titanirc.Channel.Handlers.Membership.{
  handle_join, handle_kick, handle_part, username_mask, kick_message, joined, rejected,
}
use titanirc.Channel.Joining.{join_rejected_iff, first_join_founds}
use titanirc.Channel.Leaving.{kick_removes_one}
use titanirc.Channel.Mailbox.{Request, joining, parting, new_channel, step, run}
use titanirc.Channel.Founders.{founders_fixed}
use titanirc.Channel.Staying.{member_stays}
use titanirc.Tests.Samples.{sample_irc, sample_time, sample_channel, alice, bob, joining_bob}

join_rejected_iff_example :
    (handle_join sample_irc sample_time sample_channel joining_bob
      ≡ (sample_channel, [], rejected banned))
    ↔ (Has ban (get sample_channel.permissions (to_host_mask bob))
        × All (λ q. q ≡ ban) (get sample_channel.permissions (to_host_mask bob)))
join_rejected_iff_example = join_rejected_iff sample_irc sample_time sample_channel joining_bob

bob_joins : (handle_join sample_irc sample_time sample_channel joining_bob).2 ≡ joined
unfolding handle_join get_user_permissions get get_inner insert insert_fuel max max_of cmp
    to_host_mask can_join
bob_joins = refl

abbrev fresh_channel : Channel
fresh_channel = new_channel (text "#a")

bob_founds : (handle_join sample_irc sample_time fresh_channel joining_bob).2 ≡ joined
unfolding handle_join get_user_permissions get get_inner insert insert_fuel max max_of cmp
    to_host_mask can_join
bob_founds = refl

first_join_founds_example :
    get_user_permissions
      (handle_join sample_irc sample_time fresh_channel joining_bob).0
      (to_host_mask bob)
    ≡ founder
first_join_founds_example =
    first_join_founds sample_irc sample_time fresh_channel joining_bob new-IsRoot refl bob_founds

-- Alice kicks Bob.
abbrev kick_bob : ChannelKickUser
kick_bob = record { client = 1; user = text "bo"; reason = none }

kick_removes_one_example :
    let after : Channel × List Sent = handle_kick sample_irc sample_time sample_channel kick_bob in
    (after.0 ≡ sample_channel)
    ⊎ ((kicker kicked : InitiatedConnection) × (handle : ClientAddr) × (lookup 1
            sample_channel.clients
          ≡ some kicker)
        × (rank half_operator ≤ rank (get_user_permissions sample_channel (to_host_mask kicker)))
        × (kicked.nick ≡ text "bo")
        × Has (handle, kicked) sample_channel.clients
        × (contains_key handle sample_channel.clients ≡ true)
        × (after.0 ≡ record sample_channel { clients = remove handle sample_channel.clients })
        × Has (tell (kick_message sample_channel kicker kicked kick_bob) 2) after.1
        × Has (to_client handle (kicked_from_channel (text "#a"))) after.1)
kick_removes_one_example = kick_removes_one sample_irc sample_time sample_channel kick_bob 2 refl

abbrev part_bob : ChannelPart
part_bob = record { client = 2; message = none }

-- Bob joins and leaves again.
abbrev visit : List Request
visit = joining joining_bob ∷ parting part_bob ∷ []

still_founder :
    get_user_permissions (run sample_irc sample_time sample_channel visit) (to_host_mask alice)
    ≡ founder
unfolding run step handle_join handle_part get_user_permissions get get_inner insert insert_fuel max
    max_of cmp can_join to_host_mask
still_founder = refl

founders_fixed_example : get_user_permissions sample_channel (to_host_mask alice) ≡ founder
unfolding insert insert_fuel
founders_fixed_example =
    founders_fixed sample_irc sample_time sample_channel visit (to_host_mask alice)
      (insert-IsRoot new (username_mask alice.user) founder new-IsRoot) refl still_founder

member_stays_example :
    contains_key 1 (step sample_irc sample_time sample_channel (joining joining_bob)).0.clients
    ≡ true
member_stays_example =
    member_stays sample_irc sample_time sample_channel (joining joining_bob) 1 refl refl
