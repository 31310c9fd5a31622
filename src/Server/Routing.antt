-- ===== src/Server/Routing.antt =====
-- Who hears what of the server of src/server.rs.
use titanirc.Base.{
  ◌≡◌, ◌≢◌, refl, ap, ◌⊎◌, inl, inr, ◌↔◌, true, false, some, List, [], ◌∷◌, arith, map,
  if◌then◌else◌, Has, Has-keep, Has-map, Has-map_inv, Has-keys, Option-cases, Bool-cases, lookup,
  keys, keep, contains_key, HashMap, lookup-insert, nat_eq, nat_beq, nat_beq_iff, Text, All,
}
use titanirc.Irc.{IrcLibrary, Message, Command, from_prefix, server_name}
use titanirc.Connection.{InitiatedConnection, to_nick}
use titanirc.Messages.{
  ClientAddr, ToClient, broadcast, nick_change, private_message, Event, PrivateMessage,
  UserNickChange,
}
use titanirc.Channel.Responses.{server}
use titanirc.Channel.Handlers.{kind_command}
use titanirc.Server.{Server, to_client, persist}
use titanirc.Server.Handlers.{
  tell, is_target, send_private, keep_for_later, send_or_keep, handle_private_message, wallop,
  handle_wallops, tell_nick_change, handle_user_nick_change,
}

Has-lookup :
    (a : ClientAddr) (conn : InitiatedConnection) (clients : HashMap ClientAddr InitiatedConnection)
    → lookup a clients ≡ some conn
    → Has (a, conn) clients
Has-lookup a conn [] e = absurd (cc e)
Has-lookup a conn ((b, other) ∷ rest) e = elim (Bool-cases (nat_beq b a)) [
  | inl same ↦
      let at = (nat_beq_iff b a).0 same in
      let found : conn ≡ other = cc (rw same at e) in inl (cc (at, found))
  | inr differ ↦ inr (Has-lookup a conn rest (rw differ at e))
]

is_target_iff :
    (msg : PrivateMessage) (a : ClientAddr) (conn : InitiatedConnection)
    → (is_target msg (a, conn) ≡ true) ↔ ((conn.user_id ≡ msg.destination) × (a ≢ msg.from))
is_target_iff msg a conn =
    ground (arith, nat_beq_iff conn.user_id msg.destination, nat_beq_iff msg.from a)

not_persisted :
    (msg : PrivateMessage) (source : InitiatedConnection) (e : Event)
    (ts : List (ClientAddr × InitiatedConnection))
    → ¬ Has (persist e) (map (send_private msg source) ts)
not_persisted msg source e [] h = h
not_persisted msg source e (t ∷ ts) (inl q) = cc q
not_persisted msg source e (t ∷ ts) (inr h) = not_persisted msg source e ts h

no_targets :
    (msg : PrivateMessage) (clients : List (ClientAddr × InitiatedConnection))
    → All (λ c. is_target msg c ≡ false) clients
    → keep (is_target msg) clients ≡ []
no_targets msg [] h = refl
no_targets msg (c ∷ cs) h = rw h.0 (no_targets msg cs h.1)

module _ (irc : IrcLibrary) where
  sent_or_kept :
      (msg : PrivateMessage) (source : InitiatedConnection)
      (ts : List (ClientAddr × InitiatedConnection))
      → ((ts ≡ []) × (send_or_keep irc msg source ts ≡ keep_for_later irc msg source ∷ []))
        ⊎ (send_or_keep irc msg source ts ≡ map (send_private msg source) ts)
  sent_or_kept msg source [] = inl (refl, refl)
  sent_or_kept msg source (t ∷ ts) = inr refl

  -- A private message reaches every other connection of the user that it is for, and then it is
  -- not kept in the database.
  pub private_message_reaches :
      (s : Server) (msg : PrivateMessage) (source conn : InitiatedConnection) (a : ClientAddr)
      (e : Event)
      → lookup msg.from s.clients ≡ some source
      → lookup a s.clients ≡ some conn
      → conn.user_id ≡ msg.destination
      → a ≢ msg.from
      → Has
          (tell a (from_prefix (to_nick source) (kind_command msg.kind conn.nick msg.message)))
          (handle_private_message irc s msg)
        × (¬ Has (persist e) (handle_private_message irc s msg))
  unfolding handle_private_message
  private_message_reaches s msg source conn a e from at same other =
      let ts = keep (is_target msg) s.clients in
      let target =
        (Has-keep (is_target msg) (a, conn) s.clients).1
          (Has-lookup a conn s.clients at, (is_target_iff msg a conn).1 (same, other)) in
      elim (sent_or_kept msg source ts) [
        | inl (empty, _) ↦ absurd (rw empty at target)
        | inr sent ↦ (
          rw (handle_private_message, from, sent)
              (Has-map (send_private msg source) (a, conn) ts target),
          λ h. not_persisted msg source e ts (rw (handle_private_message, from, sent) at h),
        )
      ]

  -- Where the user has no other connection, the message goes to the database, once, and to nobody.
  pub private_message_kept :
      (s : Server) (msg : PrivateMessage) (source : InitiatedConnection)
      → lookup msg.from s.clients ≡ some source
      → All (λ c. is_target msg c ≡ false) s.clients
      → handle_private_message irc s msg
        ≡ persist (
            private_message (irc.show_prefix (to_nick source)) msg.destination msg.message msg.kind)
          ∷ []
  unfolding handle_private_message
  private_message_kept s msg source from no_other =
      rw (handle_private_message, from, no_targets msg s.clients no_other)

  -- Nobody else hears of a private message, and its sender is connected.
  pub private_message_heard_only :
      (s : Server) (msg : PrivateMessage) (a : ClientAddr) (t : ToClient)
      → Has (to_client a t) (handle_private_message irc s msg)
      → (source conn : InitiatedConnection) × (lookup msg.from s.clients ≡ some source)
        × Has (a, conn) s.clients
        × (conn.user_id ≡ msg.destination)
        × (a ≢ msg.from)
        × (t
            ≡ broadcast
                (from_prefix (to_nick source) (kind_command msg.kind conn.nick msg.message)))
  unfolding handle_private_message
  private_message_heard_only s msg a t h = elim (Option-cases (lookup msg.from s.clients)) [
    | inl stranger ↦ absurd (rw (handle_private_message, stranger) at h)
    | inr (source, from) ↦
        let ts = keep (is_target msg) s.clients in
        let h' : Has (to_client a t) (send_or_keep irc msg source ts) =
          rw (handle_private_message, from) at h in
        elim (sent_or_kept msg source ts) [
          | inl (_, kept) ↦ elim (rw kept at h') [
            | inl e ↦ absurd (cc e)
            | inr never ↦ absurd never
          ]
          | inr sent ↦
              let ((b, conn), k, e) =
                Has-map_inv (send_private msg source) (to_client a t) ts (rw sent at h') in
              let (member, target) = (Has-keep (is_target msg) (b, conn) s.clients).0 k in
              let (same, other) = (is_target_iff msg b conn).0 target in
              let at : a ≡ b = cc e in (source, conn, from, rw at member, same, rw at other, cc e)
        ]
  ]

Has-wallop :
    (m : Message) (clients : HashMap ClientAddr InitiatedConnection) (a : ClientAddr) (t : ToClient)
    → Has (to_client a t) (wallop m clients) ↔ (
        (conn : InitiatedConnection) × Has (a, conn) clients
        × (conn.mode.wallops ≡ true)
        × (t ≡ broadcast m))
Has-wallop m [] a t = ((λ h. elim h [ ]), (λ h. elim h.1 [ ]))
Has-wallop m ((b, other) ∷ rest) a t =
    let ih = Has-wallop m rest a t in
    elim (Bool-cases other.mode.wallops) [
      | inl on ↦ rw on (
        λ h. elim h [
          | inl e ↦ (other, inl (cc e), on, cc e)
          | inr h' ↦ let (conn, k, w, e) = ih.0 h' in (conn, inr k, w, e)
        ],
        λ (conn, k, w, e). elim k [
          | inl same ↦ inl (cc (same, e))
          | inr later ↦ inr (ih.1 (conn, later, w, e))
        ],
      )
      | inr off ↦ rw off (
        λ h. let (conn, k, w, e) = ih.0 h in (conn, inr k, w, e),
        λ (conn, k, w, e). elim k [
          | inl same ↦
              absurd (cc (w, ap (λ (x : ClientAddr × InitiatedConnection). x.1.mode.wallops) same))
          | inr later ↦ ih.1 (conn, later, w, e)
        ],
      )
    ]

-- Wallops reach exactly the clients that have the mode.
pub wallops_reach :
    (s : Server) (message : Text) (a : ClientAddr) (t : ToClient)
    → Has (to_client a t) (handle_wallops s message) ↔ (
        (conn : InitiatedConnection) × Has (a, conn) s.clients
        × (conn.mode.wallops ≡ true)
        × (t ≡ broadcast (from_prefix (server_name server) (Command.wallops message))))
unfolding handle_wallops
wallops_reach s message a t =
    Has-wallop (from_prefix (server_name server) (Command.wallops message)) s.clients a t

-- A change of nick is told to every client, and the server has the new nick for the client and
-- all else as before.
pub nick_change_known :
    (s : Server) (msg : UserNickChange) (a b : ClientAddr)
    → contains_key a s.clients ≡ true
    → contains_key msg.client s.clients ≡ true
    → Has (to_client a (nick_change msg)) (handle_user_nick_change s msg).1
      × (lookup b (handle_user_nick_change s msg).0.clients ≡ (
          if nat_beq msg.client b
          then some (record msg.connection { nick = msg.new_nick })
          else lookup b s.clients))
unfolding handle_user_nick_change
nick_change_known s msg a b member known =
    let told =
      Has-map (tell_nick_change msg) a (keys s.clients) ((Has-keys a s.clients).1 member) in
    elim (Option-cases (lookup msg.client s.clients)) [
      | inl e ↦ absurd (cc (rw e at known))
      | inr (old, e) ↦ (
        told,
        rw (handle_user_nick_change, e)
            (lookup-insert msg.client b (record msg.connection { nick = msg.new_nick }) s.clients),
      )
    ]
