-- ===== src/Channel/Leaving.antt =====
-- What a client's leaving does to the other members of a channel of src/channel.rs.
use titanirc.Base.{
  ◌≤◌, ◌≡◌, refl, ◌⊎◌, inl, inr, true, none, some, List, [], ◌∷◌, arith, map, if◌then◌else◌,
  Option-cases, Bool-cases, lookup, remove, contains_key, find, nat_eq, nat_beq, nat_beq_iff,
  lookup-remove, Text, HashMap, ◌==◌, text_eq, keys, text_beq_iff, Has, Has-append_right,
  Has-append_left, Has-map, Has-keys,
}
use titanirc.Irc.{IrcLibrary}
use titanirc.Permission.{half_operator, can_kick}
use titanirc.Permission.Laws.{rank, can_kick_iff}
use titanirc.Connection.{DateTime, InitiatedConnection, to_host_mask}
use titanirc.Messages.{
  ClientAddr, ServerDisconnect, ChannelPart, ChannelKickUser, kicked_from_channel,
}
use titanirc.Channel.{Channel, Sent, to_client, get_user_permissions}
use titanirc.Channel.Handlers.{tell}
use titanirc.Channel.Handlers.Membership.{
  handle_kick, handle_part, handle_disconnect, has_nick, kick_message,
}

find_nick :
    (nick : Text) (clients : HashMap ClientAddr InitiatedConnection) (handle : ClientAddr)
    (kicked : InitiatedConnection)
    → find (has_nick nick) clients ≡ some (handle, kicked)
    → (kicked.nick ≡ nick) × Has (handle, kicked) clients
find_nick nick [] handle kicked e = absurd (cc e)
find_nick nick ((a, conn) ∷ rest) handle kicked e = elim (Bool-cases (conn.nick == nick)) [
  | inl found ↦
      let same = rw found at e in
      (ground (arith, same, text_beq_iff conn.nick nick), inl (ground (arith, same)))
  | inr other ↦ let (n, k) = find_nick nick rest handle kicked (rw other at e) in (n, inr k)
]

module _ (irc : IrcLibrary) (show_time : DateTime → Text) where
  -- A kick changes nothing, or it removes the entry of one address at which there is a member with
  -- the nick, and then it was sent by a member of at least the rank of a half-operator, each member
  -- hears of it, the removed one too, and the removed one is told to forget the channel.
  pub kick_removes_one :
      (c : Channel) (msg : ChannelKickUser) (a : ClientAddr)
      → contains_key a c.clients ≡ true
      → let after : Channel × List Sent = handle_kick irc show_time c msg in
        (after.0 ≡ c)
        ⊎ ((kicker kicked : InitiatedConnection) × (handle : ClientAddr) × (lookup msg.client
                c.clients
              ≡ some kicker)
            × (rank half_operator ≤ rank (get_user_permissions c (to_host_mask kicker)))
            × (kicked.nick ≡ msg.user)
            × Has (handle, kicked) c.clients
            × (contains_key handle c.clients ≡ true)
            × (after.0 ≡ record c { clients = remove handle c.clients })
            × Has (tell (kick_message c kicker kicked msg) a) after.1
            × Has (to_client handle (kicked_from_channel c.name)) after.1)
  unfolding handle_kick
  kick_removes_one c msg a member = elim (Option-cases (lookup msg.client c.clients)) [
    | inl e ↦ inl (rw (handle_kick, e))
    | inr (kicker, e) ↦
        elim (Bool-cases (can_kick (get_user_permissions c (to_host_mask kicker)))) [
          | inr low ↦ inl (rw (handle_kick, e, low))
          | inl high ↦ elim (Option-cases (find (has_nick msg.user) c.clients)) [
            | inl f ↦ inl (rw (handle_kick, e, high, f))
            | inr ((handle, kicked), f) ↦
                let (n, k) = find_nick msg.user c.clients handle kicked f in
                let message = kick_message c kicker kicked msg in
                let heard =
                  Has-map (tell message) a (keys c.clients) ((Has-keys a c.clients).1 member) in
                inr (
                  kicker,
                  kicked,
                  handle,
                  e,
                  (can_kick_iff (get_user_permissions c (to_host_mask kicker))).0.0 high,
                  n,
                  k,
                  (Has-keys handle c.clients).0 (
                      Has-map (λ (e : ClientAddr × InitiatedConnection). e.0) (handle, kicked)
                        c.clients k),
                  rw (handle_kick, e, high, f),
                  rw (handle_kick, e, high, f)
                      (Has-append_left (tell message a) (map (tell message) (keys c.clients))
                        (to_client handle (kicked_from_channel c.name) ∷ []) heard),
                  rw (handle_kick, e, high, f)
                      (Has-append_right (to_client handle (kicked_from_channel c.name))
                        (map (tell message) (keys c.clients))
                        (to_client handle (kicked_from_channel c.name) ∷ []) (inl refl)),
                )
          ]
        ]
  ]

missing_self :
    (k a : ClientAddr) (clients : HashMap ClientAddr InitiatedConnection)
    → lookup k clients ≡ none
    → lookup a clients ≡ (if nat_beq k a then none else lookup a clients)
missing_self k a clients e = ground (arith, e, nat_beq_iff k a)

-- A part and a disconnect remove the sender and nobody else, whoever sent it.
pub part_clients :
    (c : Channel) (msg : ChannelPart) (a : ClientAddr)
    → lookup a (handle_part c msg).0.clients
      ≡ (if nat_beq msg.client a then none else lookup a c.clients)
unfolding handle_part
part_clients c msg a = elim (Option-cases (lookup msg.client c.clients)) [
  | inl e ↦ rw (handle_part, e) (missing_self msg.client a c.clients e)
  | inr (conn, e) ↦ rw (handle_part, e) (lookup-remove msg.client a c.clients)
]

pub disconnect_clients :
    (c : Channel) (msg : ServerDisconnect) (a : ClientAddr)
    → lookup a (handle_disconnect c msg).0.clients
      ≡ (if nat_beq msg.client a then none else lookup a c.clients)
unfolding handle_disconnect
disconnect_clients c msg a = elim (Option-cases (lookup msg.client c.clients)) [
  | inl e ↦ rw (handle_disconnect, e) (missing_self msg.client a c.clients e)
  | inr (conn, e) ↦ rw (handle_disconnect, e) (lookup-remove msg.client a c.clients)
]
