-- ===== src/Channel/Store/Silence.antt =====
-- What the handlers of src/channel.rs send that is no event for the database.
use titanirc.Base.{
  ◌≡◌, refl, inl, inr, Bool, true, false, Option, none, some, List, [], ◌∷◌, ◌++◌, map, arith, ◌&&◌,
  nat_eq, Text, Bool-cases, HashMap,
}
use titanirc.Irc.{IrcLibrary, Message, Mode}
use titanirc.HostMask
use titanirc.Permission
use titanirc.Permission.{
  Permission, normal, into_mode, can_set_permission, can_chatter, can_set_topic, can_kick, ban,
  permission_beq,
}
use titanirc.Connection.{DateTime, InitiatedConnection}
use titanirc.Messages.{ClientAddr, ChannelJoin}
use titanirc.Channel.{Channel, Sent}
use titanirc.Channel.Handlers.{
  tell, relay, mode_parts, mode_round, mode_with_mask, Round, go_on, stop, return_bans, after_round,
  set_modes, ban_list,
}
use titanirc.Channel.Handlers.Membership.{announce_joins, welcome, tell_topic}
use titanirc.Channel.Responses.{BanList, topic_messages, channel_topic, names_messages, member_list}
use titanirc.Channel.Store.{events_of}

pub events_of-append : (xs ys : List Sent) → events_of (xs ++ ys) ≡ events_of xs ++ events_of ys
events_of-append [] ys = refl
events_of-append (x ∷ xs) ys = ground (arith, events_of-append xs ys)

pub events_of-append_none :
    (xs ys : List Sent) → events_of xs ≡ [] → events_of ys ≡ [] → events_of (xs ++ ys) ≡ []
events_of-append_none xs ys e f = rw (events_of-append xs ys, e, f) refl

pub events_of-append_quiet :
    (xs ys : List Sent) → events_of ys ≡ [] → events_of (xs ++ ys) ≡ events_of xs
events_of-append_quiet [] ys e = e
events_of-append_quiet (x ∷ xs) ys e = ground (arith, events_of-append_quiet xs ys e)

-- Messages to clients are no events.
pub events_of-tell_each :
    (m : Message) (clients : List ClientAddr) (ys : List Sent)
    → events_of ys ≡ []
    → events_of (map (tell m) clients ++ ys) ≡ []
events_of-tell_each m [] ys e = e
events_of-tell_each m (client ∷ clients) ys e = events_of-tell_each m clients ys e

pub events_of-tell_one :
    (client : ClientAddr) (ms : List Message) (ys : List Sent)
    → events_of ys ≡ []
    → events_of (map (λ (m : Message). tell m client) ms ++ ys) ≡ []
events_of-tell_one client [] ys e = e
events_of-tell_one client (m ∷ ms) ys e = events_of-tell_one client ms ys e

pub events_of-broadcast :
    (m : Message) (clients : List ClientAddr) → events_of (map (tell m) clients) ≡ []
events_of-broadcast m [] = refl
events_of-broadcast m (client ∷ clients) = events_of-broadcast m clients

pub events_of-replies :
    (client : ClientAddr) (ms : List Message)
    → events_of (map (λ (m : Message). tell m client) ms) ≡ []
events_of-replies client [] = refl
events_of-replies client (m ∷ ms) = events_of-replies client ms

pub events_of-relay :
    (sender : ClientAddr) (m : Message) (clients : List ClientAddr)
    → events_of (relay sender m clients) ≡ []
events_of-relay sender m [] = refl
events_of-relay sender m (client ∷ rest) = ground (arith, events_of-relay sender m rest)

pub events_of-announce_joins :
    (join : Message) (mode : Option Message) (clients : List ClientAddr)
    → events_of (announce_joins join mode clients) ≡ []
events_of-announce_joins join mode [] = refl
events_of-announce_joins join none (client ∷ rest) = events_of-announce_joins join none rest
events_of-announce_joins join (some mode) (client ∷ rest) =
    events_of-announce_joins join (some mode) rest

abbrev round_sent : Round → List Sent
round_sent (go_on sent) = sent
round_sent stop = []
round_sent return_bans = []

pub events_of-parsed :
    (client : InitiatedConnection) (add : Bool) (p : Permission) (q : HostMask.Parsed)
    → events_of (round_sent (mode_with_mask client add p q)) ≡ []
events_of-parsed client add p (HostMask.err e) = refl
events_of-parsed client add p (HostMask.ok m) = refl

pub events_of-round :
    (client : InitiatedConnection) (add : Bool) (p : Option Permission) (arg : Option Text)
    → events_of (round_sent (mode_round client add p arg)) ≡ []
events_of-round client add none arg = refl
events_of-round client add (some p) none = elim (Bool-cases (add && permission_beq p ban)) [
  | inl e ↦ rw e refl
  | inr e ↦ rw e refl
]
events_of-round client add (some p) (some arg) =
    events_of-parsed client add p (HostMask.try_from arg)

pub events_of-rest :
    (r : Round) (later : List Sent × Option BanList) (bans : BanList)
    → events_of (round_sent r) ≡ []
    → events_of later.0 ≡ []
    → events_of (after_round r later bans).0 ≡ []
events_of-rest (go_on sent) later bans e f = events_of-append_none sent later.0 e f
events_of-rest stop later bans e f = refl
events_of-rest return_bans later bans e f = refl

-- A mode change is a message of the channel to itself.
pub events_of-set_modes :
    (c : Channel) (client : InitiatedConnection) (modes : List Mode)
    → events_of (set_modes c client modes).0 ≡ []
events_of-set_modes c client [] = refl
events_of-set_modes c client (mode ∷ modes) =
    let (add, channel_mode, arg) = mode_parts mode in
    let p = Permission.try_from channel_mode in
    events_of-rest (mode_round client add p arg) (set_modes c client modes) (ban_list c)
      (events_of-round client add p arg) (events_of-set_modes c client modes)

module _ (irc : IrcLibrary) (show_time : DateTime → Text) where
  pub events_of-welcome :
      (c : Channel) (msg : ChannelJoin) → events_of (welcome irc show_time c msg) ≡ []
  events_of-welcome c msg =
      let names =
        names_messages irc (member_list c) msg.connection.nick
          msg.connection.capabilities.userhost_in_names in
      events_of-tell_one msg.client (topic_messages show_time (channel_topic c true) c.name)
        (map (λ (m : Message). tell m msg.client) names) (events_of-replies msg.client names)

  pub events_of-tell_topic :
      (c : Channel) (clients : HashMap ClientAddr InitiatedConnection)
      → events_of (tell_topic irc show_time c clients) ≡ []
  events_of-tell_topic c [] = refl
  events_of-tell_topic c ((client, connection) ∷ rest) =
      events_of-tell_one client (topic_messages show_time (channel_topic c false) connection.nick)
        (tell_topic irc show_time c rest) (events_of-tell_topic c rest)
