-- ===== src/Persistence/Mailbox.antt =====
-- The events that the actor of src/persistence.rs gets without an answer being waited for, one
-- after another.
use titanirc.Base.{Option, none, some, List, [], ◌∷◌}
use mathlib.Core.Option
use titanirc.Connection.{DateTime}
use titanirc.Messages.{
  Event, channel_joined, channel_parted, set_user_channel_permissions, channel_message,
  private_message, server_ban, server_remove_ban,
}
use titanirc.Persistence.{
  Persistence, Database, persist_joined, persist_parted, persist_permission,
  persist_channel_message, persist_private_message,
}
use titanirc.Persistence.Upkeep.{persist_ban, persist_remove_ban}

abbrev pub with_database : Persistence → Database → Persistence
with_database p d = record p { database = d }

-- One event at the time `now`. `none` is a panic, which ends the actor.
unfoldable pub persist_event : DateTime → Persistence → Event → Option Persistence
persist_event now p (channel_joined channel user) =
    some (with_database p (persist_joined channel user p.database))
persist_event now p (channel_parted channel user) =
    some (with_database p (persist_parted channel user p.database))
persist_event now p (set_user_channel_permissions channel mask permission) =
    some (with_database p (persist_permission channel mask permission p.database))
persist_event now p (channel_message channel sender message receivers kind) =
    some (persist_channel_message now p channel sender message receivers kind)
persist_event now p (private_message sender receiver message kind) =
    some (persist_private_message now p sender receiver message kind)
persist_event now p (server_ban mask requester reason created expires) =
    Option.map (with_database p) (
      persist_ban
        (record {
          mask = mask;
          requester = requester;
          reason = reason;
          created = created;
          expires = expires;
        })
        p.database)
persist_event now p (server_remove_ban mask) =
    some (with_database p (persist_remove_ban mask p.database))

unfoldable pub persist_events : DateTime → Persistence → List Event → Option Persistence
persist_events now p [] = some p
persist_events now p (e ∷ es) = elim (persist_event now p e) [
  | none ↦ none
  | some p' ↦ persist_events now p' es
]

-- Events at their times.
unfoldable pub persist_run : Persistence → List (DateTime × Event) → Option Persistence
persist_run p [] = some p
persist_run p ((now, e) ∷ es) = elim (persist_event now p e) [
  | none ↦ none
  | some p' ↦ persist_run p' es
]
