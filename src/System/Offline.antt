-- ===== src/System/Offline.antt =====
-- A private message of src/server.rs to a user who is not connected, up to the user's next client.
use titanirc.Base.{
  ◌≡◌, refl, inl, inr, none, ◌∷◌, if◌then◌else◌, Bool-cases, text, false, some, [], map, Has,
  Has-map, All, lookup, nat_eq, Text,
}
use titanirc.Irc.{IrcLibrary}
use titanirc.Connection.{DateTime, InitiatedConnection, to_nick}
use titanirc.Messages.{PrivateMessage, MessageKind}
use titanirc.Persistence.{
  Persistence, PrivateRow, monotonically_increasing_id, fetch_unseen_private_messages,
  persist_private_message,
}
use titanirc.Persistence.Mailbox.{persist_event, persist_events}
use titanirc.Persistence.Replay.{private_message_once}
use titanirc.Server.{Server}
use titanirc.Server.Handlers.{is_target, handle_private_message}
use titanirc.Server.Routing.{private_message_kept}
use titanirc.Client
use titanirc.Client.{Client, Notice}
use titanirc.Client.Handlers.{
  build_unseen_message, maybe_build_time_tag, send_unseen_private_messages,
}
use titanirc.Channel.Handlers.{kind_command}
use titanirc.System.{server_events}

-- The columns of the answer.
abbrev pub columns : PrivateRow → DateTime × Text × Text × MessageKind
columns r = (r.timestamp, r.sender, r.message, r.kind)

module _ (irc : IrcLibrary) (show_rfc3339 : DateTime → Text) where
  unseen_message :
      (c : Client) (m : DateTime × Text × Text × MessageKind)
      → build_unseen_message irc show_rfc3339 c m ≡ record {
        tags =
            if c.connection.capabilities.server_time
            then some ((text "time", some (show_rfc3339 m.0)) ∷ [])
            else none;
        prefix = some (irc.prefix_from_str m.1);
        command = kind_command m.3 c.connection.nick m.2;
      }
  unfolding build_unseen_message maybe_build_time_tag
  unseen_message c (sent, sender, message, kind) =
      elim (Bool-cases c.connection.capabilities.server_time) [
        | inl y ↦ rw (maybe_build_time_tag, y) refl
        | inr n ↦ rw (maybe_build_time_tag, n) refl
      ]

  -- A private message of a connected client to a user without one is kept, and the user's next
  -- client shows it to the user: the message comes from its sender, is addressed to the client's
  -- nick with its kind and its text, and is tagged with the time at which it was stored if the
  -- client has asked for server-time, with nothing else. The database has it no more then.
  pub offline_message_delivered :
      (now : DateTime) (s : Server) (msg : PrivateMessage) (source : InitiatedConnection)
      (p : Persistence) (c : Client)
      → lookup msg.from s.clients ≡ some source
      → All (λ e. is_target msg e ≡ false) s.clients
      → c.connection.user_id ≡ msg.destination
      → (p' : Persistence) × (persist_events now p
            (server_events (handle_private_message irc s msg))
          ≡ some p')
        × (let (d, given) = fetch_unseen_private_messages c.connection.user_id p'.database in
            Has
              (Client.notify (
                Notice.unicast (record {
                  tags =
                      if c.connection.capabilities.server_time
                      then some (
                          (text "time", some (show_rfc3339 (monotonically_increasing_id now p)))
                          ∷ [])
                      else none;
                  prefix = some (irc.prefix_from_str (irc.show_prefix (to_nick source)));
                  command = kind_command msg.kind c.connection.nick msg.message;
                })))
              (send_unseen_private_messages irc show_rfc3339 c (map columns given))
            × ((fetch_unseen_private_messages c.connection.user_id d).1 ≡ []))
  unfolding persist_events persist_event send_unseen_private_messages build_unseen_message
      maybe_build_time_tag
  offline_message_delivered now s msg source p c from no_other mine =
      let sender : Text = irc.show_prefix (to_nick source) in
      let p' : Persistence =
        persist_private_message now p sender msg.destination msg.message msg.kind in
      let (given, gone) = private_message_once now p sender msg.message msg.kind msg.destination in
      (
        p',
        rw (private_message_kept irc s msg source from no_other) refl,
        rw
            (
              mine,
              ← unseen_message c (monotonically_increasing_id now p, sender, msg.message, msg.kind),
            )
            (Has-map _ _ _ (Has-map columns _ _ given), gone),
      )
