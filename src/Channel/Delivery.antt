-- ===== src/Channel/Delivery.antt =====
-- Who hears a message to a channel of src/channel.rs.
use titanirc.Base.{
  ◌≡◌, ap, values, ◌≢◌, ◌↔◌, inl, inr, true, some, List, [], ◌∷◌, map, arith, Option-cases,
  Bool-cases, Has, Has-map, Has-map_inv, lookup, contains_key, keys, nat_eq, nat_beq_iff, Has-keys,
  HashMap, ◌==◌,
}
use titanirc.Irc.{IrcLibrary, Message, from_prefix}
use titanirc.Permission.{can_chatter}
use titanirc.Connection.{InitiatedConnection, to_nick, to_host_mask}
use titanirc.Messages.{channel_message, Event, ClientAddr, ToClient, broadcast, ChannelMessage}
use titanirc.Channel.{Channel, to_client, get_user_permissions}
use titanirc.Channel.Handlers.{tell, relay, kind_command, handle_message, user_ids}
use titanirc.Channel.Store.{events_of}
use titanirc.Channel.Store.Silence.{events_of-relay}

-- `tell` to each key reaches exactly the clients of the map.
pub Has-tell :
    (m : Message) (a : ClientAddr) (t : ToClient) (clients : HashMap ClientAddr InitiatedConnection)
    → Has (to_client a t) (map (tell m) (keys clients))
      ↔ ((t ≡ broadcast m) × (contains_key a clients ≡ true))
Has-tell m a t clients = (
  λ h.
      let (b, k, e) = Has-map_inv (tell m) (to_client a t) (keys clients) h in
      (ground arith, ground (arith, (Has-keys a clients).0)),
  λ (e, k). rw e (Has-map (tell m) a (keys clients) ((Has-keys a clients).1 k)),
)

Has-relay :
    (sender : ClientAddr) (m : Message) (a : ClientAddr) (t : ToClient) (ks : List ClientAddr)
    → Has (to_client a t) (relay sender m ks) ↔ ((t ≡ broadcast m) × Has a ks × (a ≢ sender))
Has-relay sender m a t [] = ((λ h. elim h [ ]), (λ h. elim h.1 [ ]))
Has-relay sender m a t (k ∷ ks) = elim (Bool-cases (k == sender)) [
  | inl same ↦ rw same (
      let ih = Has-relay sender m a t ks in
      (
        λ h. let (e, k', n) = ih.0 h in (e, inr k', n),
        λ (e, k', n). ih.1 (e, ground (arith, nat_beq_iff k sender), n),
      ))
  | inr other ↦ rw other (
      let ih = Has-relay sender m a t ks in
      (
        λ h. elim h [
          | inl e ↦ (ground arith, inl (ground arith), ground (arith, nat_beq_iff k sender))
          | inr h' ↦ let (e, k', n) = ih.0 h' in (e, inr k', n)
        ],
        λ (e, k', n). elim k' [
          | inl same ↦ inl (ground arith)
          | inr later ↦ inr (ih.1 (e, later, n))
        ],
      ))
]

module _ (irc : IrcLibrary) where
  pub message_event :
      (c : Channel) (msg : ChannelMessage) (sender : InitiatedConnection)
      → lookup msg.client c.clients ≡ some sender
      → can_chatter (get_user_permissions c (to_host_mask sender)) ≡ true
      → events_of (handle_message irc c msg).1
        ≡ channel_message c.channel_id
            (irc.show_prefix (to_nick sender))
            msg.message
            (user_ids (values c.clients))
            msg.kind
          ∷ []
  unfolding handle_message
  message_event c msg sender member allowed =
      rw (handle_message, member, allowed)
        (ap
          (λ (es : List Event).
            channel_message c.channel_id (irc.show_prefix (to_nick sender)) msg.message
              (user_ids (values c.clients)) msg.kind
            ∷ es)
          (events_of-relay msg.client _ (keys c.clients)))

  -- A message of a member who may chatter goes to every other member and not back to the sender, and
  -- what the database is sent is the message once, with every member as a receiver.
  pub message_reaches :
      (c : Channel) (msg : ChannelMessage) (sender : InitiatedConnection) (a : ClientAddr)
      (t : ToClient)
      → lookup msg.client c.clients ≡ some sender
      → can_chatter (get_user_permissions c (to_host_mask sender)) ≡ true
      → (Has (to_client a t) (handle_message irc c msg).1 ↔ (
          (t ≡ broadcast (from_prefix (to_nick sender) (kind_command msg.kind c.name msg.message)))
          × (contains_key a c.clients ≡ true)
          × (a ≢ msg.client)))
        × (events_of (handle_message irc c msg).1
            ≡ channel_message c.channel_id
                (irc.show_prefix (to_nick sender))
                msg.message
                (user_ids (values c.clients))
                msg.kind
              ∷ [])
  unfolding handle_message
  message_reaches c msg sender a t member allowed =
      let sent = from_prefix (to_nick sender) (kind_command msg.kind c.name msg.message) in
      let once = message_event c msg sender member allowed in
      (
        rw (handle_message, member, allowed)
            (let relayed = Has-relay msg.client sent a t (keys c.clients) in
              (
                λ h. elim h [
                  | inl never ↦ absurd (cc)
                  | inr h' ↦ let (e, k, n) = relayed.0 h' in (e, (Has-keys a c.clients).0 k, n)
                ],
                λ (e, k, n). inr (relayed.1 (e, (Has-keys a c.clients).1 k, n)),
              )),
        once,
      )

  -- Whoever else hears of a message to the channel, its sender is a member who may chatter, the
  -- hearer is a member, and the channel has not changed.
  pub message_heard_only :
      (c : Channel) (msg : ChannelMessage) (a : ClientAddr) (t : ToClient)
      → a ≢ msg.client
      → Has (to_client a t) (handle_message irc c msg).1
      → (sender : InitiatedConnection) × (lookup msg.client c.clients ≡ some sender)
        × (can_chatter (get_user_permissions c (to_host_mask sender)) ≡ true)
        × (contains_key a c.clients ≡ true)
        × ((handle_message irc c msg).0 ≡ c)
  unfolding handle_message
  message_heard_only c msg a t other h = elim (Option-cases (lookup msg.client c.clients)) [
    | inl stranger ↦ absurd (rw (handle_message, stranger) at h)
    | inr (sender, member) ↦
        elim (Bool-cases (can_chatter (get_user_permissions c (to_host_mask sender)))) [
          | inl allowed ↦ (
            sender,
            member,
            allowed,
            ((message_reaches c msg sender a t member allowed).0.0 h).1,
            rw (handle_message, member, allowed),
          )
          | inr banned ↦ absurd (elim (rw (handle_message, member, banned) at h) [
            | inl e ↦ other (ground arith)
            | inr never ↦ never
          ])
        ]
  ]
