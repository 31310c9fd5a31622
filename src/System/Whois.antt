-- ===== src/System/Whois.antt =====
-- WHOIS of src/server.rs against the list of names of src/channel.rs.
use titanirc.Base.{
  ◌≡◌, some, Has, Has-map, lookup, values, nat_eq, text_eq, HashMap, Text, [], ◌∷◌, inl, inr,
  Bool-cases, ◌==◌,
}
use titanirc.Permission.{Permission}
use titanirc.Connection.{InitiatedConnection, to_host_mask}
use titanirc.Messages.{ClientAddr, ChannelAddr}
use titanirc.Channel.{get_user_permissions}
use titanirc.Channel.Responses.{member, member_list}
use titanirc.Channel.Handlers.{handle_member_list, handle_fetch_user_permission}
use titanirc.Client.{Question}
use titanirc.Client.Handlers.{handle_connected_channels}
use titanirc.Server.Handlers.{by_nick}
use titanirc.Server.Queries.{handle_fetch_whois}
use titanirc.System.Answers.{Network, respond}

Has-values :
    (a : ClientAddr) (c : InitiatedConnection) (m : HashMap ClientAddr InitiatedConnection)
    → lookup a m ≡ some c
    → Has c (values m)
Has-values a c [] e = absurd (cc e)
Has-values a c ((b, d) ∷ m) e = elim (Bool-cases (b == a)) [
  | inl y ↦ inl (cc (rw y at e))
  | inr n ↦ inr (Has-values a c m (rw n at e))
]

-- What WHOIS tells of a user it tells for each of the channels that the user's client has: the
-- name of the channel with the very permission that the channel's own list has for its member,
-- where the channel and the client know the user under the same mask.
pub whois_agrees :
    (n : Network) (nick name : Text) (handle : ClientAddr) (conn conn' : InitiatedConnection)
    (a : ChannelAddr)
    → by_nick n.server nick ≡ some (handle, conn)
    → Has (name, a) (n.clients handle).channels
    → lookup handle (n.channels a).clients ≡ some conn'
    → to_host_mask conn' ≡ to_host_mask (n.clients handle).connection
    → (p : Permission) × Has (p, name) (respond n (Question.whois nick)).channels
      × Has (p, conn') (handle_member_list (n.channels a)).nick_list
unfolding respond handle_fetch_whois handle_connected_channels handle_fetch_user_permission
    handle_member_list member_list
whois_agrees n nick name handle conn conn' a found listed joined same =
    let ask = λ (b : ChannelAddr).
      get_user_permissions (n.channels b) (to_host_mask (n.clients handle).connection) in
    (
      ask a,
      rw (respond, handle_fetch_whois, found)
          (Has-map (λ (e : Text × ChannelAddr). (ask e.1, e.0)) (name, a)
            (n.clients handle).channels listed),
      rw (← same) (
          Has-map (member (n.channels a)) conn' (values (n.channels a).clients)
            (Has-values handle conn' (n.channels a).clients joined)),
    )
