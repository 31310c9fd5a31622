-- ===== src/Client/Guards.antt =====
-- What a client of src/client.rs can bring the server to do.
use titanirc.Base.{
  ◌≡◌, refl, inl, inr, Bool, true, false, Option, none, some, List, [], ◌∷◌, ◌++◌, map, arith,
  if◌then◌else◌, unwrap_or, Option-cases, Bool-cases, lookup, All, split, trim, Text, text, text_eq,
}
use titanirc.Irc.{Message, Command, bare, response}
use titanirc.Irc.Response.{rpl_endofinfo}
use titanirc.HostMask.RoundTrip.{IsValid}
use titanirc.Connection.{DateTime}
use titanirc.Messages.{ClientAddr, ChannelAddr, MessageKind}
use titanirc.Proto
use titanirc.Proto.{LocalCommand, Result, ProtoError, unknown_command, error_messages}
use titanirc.Proto.Laws.{IsMasked, local_command-IsMasked}
use titanirc.Client.{Client, ToServer, Question, Sent, write, to_server, ask_server, to_channel}
use titanirc.Client.Handlers.{parse_channel_name_list}
use titanirc.Client.Stream.{
  Surroundings, writes, refuse, with_channel, kicks, names_of, info_line, local_command, talk,
  part_from, command_sends, further_sends, handle_client_command, is_spoofed, handle_item,
}

-- What a client may send: to channels, only to those that it is connected to; wallops, forced
-- disconnects and bans only as an operator, and bans in its own name and of valid masks.
abbrev pub IsAllowed : Client → Sent → Type 0
IsAllowed c (to_channel a m) = (name : Text) × (lookup name c.channels ≡ some a)
IsAllowed c (to_server (ToServer.wallops m)) = c.connection.mode.oper ≡ true
IsAllowed c (ask_server (Question.gline g)) =
    (c.connection.mode.oper ≡ true) × IsValid g.mask × (g.requester ≡ c.connection)
IsAllowed c (ask_server (Question.remove_gline m)) = (c.connection.mode.oper ≡ true) × IsValid m
IsAllowed c (ask_server Question.list_gline) = c.connection.mode.oper ≡ true
IsAllowed c (ask_server (Question.force_disconnect d)) = c.connection.mode.oper ≡ true
IsAllowed c _ = Unit

abbrev pub AreAllowed : Client → List Sent → Type 0
AreAllowed c sent = All (λ x. IsAllowed c x) sent

writes-AreAllowed : (c : Client) (ms : List Message) → AreAllowed c (writes ms)
writes-AreAllowed c [] = tt
writes-AreAllowed c (m ∷ ms) = (tt, writes-AreAllowed c ms)

append-AreAllowed :
    (c : Client) (xs ys : List Sent) → AreAllowed c xs → AreAllowed c ys → AreAllowed c (xs ++ ys)
append-AreAllowed c [] ys h k = k
append-AreAllowed c (x ∷ xs) ys h k = (h.0, append-AreAllowed c xs ys h.1 k)

with_channel-AreAllowed :
    (c : Client) (name : Text) (f : ChannelAddr → List Sent)
    → ((a : ChannelAddr) → lookup name c.channels ≡ some a → AreAllowed c (f a))
    → AreAllowed c (with_channel c name f)
with_channel-AreAllowed c name f each = elim (Option-cases (lookup name c.channels)) [
  | inl e ↦ rw (with_channel, e) tt
  | inr (a, e) ↦ rw (with_channel, e) (each a e)
]

kicks-AreAllowed :
    (me : ClientAddr) (c : Client) (name : Text) (a : ChannelAddr) (reason : Option Text)
    (users : List Text)
    → lookup name c.channels ≡ some a
    → AreAllowed c (kicks me a reason users)
kicks-AreAllowed me c name a reason [] e = tt
kicks-AreAllowed me c name a reason (u ∷ users) e =
    ((name, e), kicks-AreAllowed me c name a reason users e)

names-AreAllowed : (c : Client) (names : List Text) → AreAllowed c (names_of names)
names-AreAllowed c [] = tt
names-AreAllowed c (n ∷ names) = (tt, tt)

refuse-AreAllowed : (c : Client) (e : ProtoError) → AreAllowed c (refuse e c)
refuse-AreAllowed c e = writes-AreAllowed c (error_messages e c.connection.nick)

-- A test of the operator's flag, with the refusal of the command.
oper-AreAllowed :
    (c : Client) (x : Sent) (oper : Bool)
    → (oper ≡ true → IsAllowed c x)
    → AreAllowed c (if oper then x ∷ [] else refuse unknown_command c)
oper-AreAllowed c x true may = (may refl, tt)
oper-AreAllowed c x false may = refuse-AreAllowed c unknown_command

local_command-AreAllowed :
    (c : Client) (r : Result LocalCommand) → IsMasked r → AreAllowed c (local_command c r)
local_command-AreAllowed c (Result.err e) masked = refuse-AreAllowed c e
local_command-AreAllowed c (Result.ok (LocalCommand.gline m d r)) masked =
    oper-AreAllowed c _ c.connection.mode.oper (λ oper. (oper, masked, refl))
local_command-AreAllowed c (Result.ok (LocalCommand.remove_gline m)) masked =
    oper-AreAllowed c _ c.connection.mode.oper (λ oper. (oper, masked))
local_command-AreAllowed c (Result.ok LocalCommand.list_gline) masked =
    oper-AreAllowed c _ c.connection.mode.oper (λ oper. oper)

module _ (s : Surroundings) (me : ClientAddr) (now : DateTime) where
  talk-AreAllowed :
      (c : Client) (target message : Text) (kind : MessageKind)
      → AreAllowed c (talk s me now c target message kind)
  talk-AreAllowed c target message kind = elim (Bool-cases (s.irc.is_channel_name target)) [
    | inl channel ↦ rw channel (with_channel-AreAllowed c target _ (λ a e. ((target, e), tt)))
    | inr user ↦ rw user (tt, tt)
  ]

  further_sends-AreAllowed :
      (c : Client) (command : Command) → AreAllowed c (further_sends s me now c command)
  unfolding further_sends
  further_sends-AreAllowed c (Command.wallops message) =
      oper-AreAllowed c _ c.connection.mode.oper (λ oper. oper)
  further_sends-AreAllowed c (Command.saquit user comment) =
      oper-AreAllowed c _ c.connection.mode.oper (λ oper. oper)
  further_sends-AreAllowed c (Command.raw command args) =
      local_command-AreAllowed c (Proto.try_from s.humantime command args)
        (local_command-IsMasked s.humantime command args)
  further_sends-AreAllowed c (Command.who (some q)) = (tt, tt)
  further_sends-AreAllowed c (Command.who none) = refuse-AreAllowed c unknown_command
  further_sends-AreAllowed c (Command.whois (some q)) = (tt, tt)
  further_sends-AreAllowed c (Command.whois none) = refuse-AreAllowed c unknown_command
  further_sends-AreAllowed c command = ground (arith, refuse-AreAllowed c unknown_command)

  command_sends-AreAllowed :
      (c : Client) (command : Command) → AreAllowed c (command_sends s me now c command)
  unfolding command_sends
  command_sends-AreAllowed c (Command.channel_mode channel modes) =
      with_channel-AreAllowed c channel _ (λ a e. ((channel, e), tt))
  command_sends-AreAllowed c (Command.topic channel none) =
      with_channel-AreAllowed c channel _ (λ a e. ((channel, e), tt))
  command_sends-AreAllowed c (Command.topic channel (some t)) =
      with_channel-AreAllowed c channel _ (λ a e. ((channel, e), tt))
  command_sends-AreAllowed c (Command.names names) =
      names-AreAllowed c (parse_channel_name_list (unwrap_or names []))
  command_sends-AreAllowed c (Command.invite nick channel) =
      with_channel-AreAllowed c channel _ (λ a e. ((channel, e), tt))
  command_sends-AreAllowed c (Command.kick channel users reason) =
      with_channel-AreAllowed c channel _
        (λ a e. kicks-AreAllowed me c channel a reason (parse_channel_name_list users) e)
  command_sends-AreAllowed c (Command.privmsg target message) =
      talk-AreAllowed c target message MessageKind.normal
  command_sends-AreAllowed c (Command.notice target message) =
      talk-AreAllowed c target message MessageKind.notice
  command_sends-AreAllowed c Command.info =
      let lines = map (info_line c) (split 10 (trim s.info)) in
      append-AreAllowed c (writes lines)
        (write (bare (response rpl_endofinfo (c.connection.nick ∷ text "End of INFO list" ∷ [])))
          ∷ [])
        (writes-AreAllowed c lines) (tt, tt)
  command_sends-AreAllowed c command = ground (arith, further_sends-AreAllowed c command)

  part-AreAllowed :
      (c : Client) (channel : Text) (message : Option Text)
      → AreAllowed c (part_from s me now c channel message).1
  part-AreAllowed c channel message = elim (Option-cases (lookup channel c.channels)) [
    | inl e ↦ rw (part_from, e) tt
    | inr (a, e) ↦ rw (part_from, e) ((channel, e), tt)
  ]

  client_command-AreAllowed :
      (c : Client) (command : Command) → AreAllowed c (handle_client_command s me now c command).1
  unfolding handle_client_command
  client_command-AreAllowed c (Command.quit message) = (tt, tt)
  client_command-AreAllowed c (Command.part channel message) = part-AreAllowed c channel message
  client_command-AreAllowed c (Command.pong _ _) = tt
  client_command-AreAllowed c command = command_sends-AreAllowed c command

  -- Whatever comes in from a client, it is sent on to no channel that the client is not connected
  -- to; wallops, forced disconnects, bans and their removal go out only for an operator; and a ban
  -- carries the client as its requester and a valid mask.
  pub handle_item-AreAllowed :
      (c : Client) (item : Option Message) → AreAllowed c (handle_item s me now c item).1
  unfolding handle_item
  handle_item-AreAllowed c none = tt
  handle_item-AreAllowed c (some m) =
      elim (Bool-cases (is_spoofed s me now c (s.irc.source_nickname m))) [
        | inl spoofed ↦ rw spoofed tt
        | inr own ↦ rw own (client_command-AreAllowed c m.command)
      ]
