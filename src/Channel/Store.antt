-- ===== src/Channel/Store.antt =====
-- The channel of src/channel.rs with the database of src/persistence.rs that it writes its
-- permissions to, and that other actors write to as well.
pub mod Rows
pub mod Silence
pub mod Writing
pub mod Entering
pub mod Turns
pub mod Loading
pub mod Restart
pub mod Unreadable
use titanirc.Base.{Option, none, some, List, [], ◌∷◌, Text, Bool}
use mathlib.Core.Option
use titanirc.Irc.{IrcLibrary}
use titanirc.Connection.{DateTime}
use titanirc.Messages.{Event}
use titanirc.Persistence.{Persistence, channel_created, fetch_all_permissions}
use titanirc.Persistence.Mailbox.{persist_event, persist_events}
use titanirc.Channel.{Channel, Sent, to_client, persist, notify_broadcast, notify_set_user_mode}
use titanirc.Channel.Handlers.{started}
use titanirc.Channel.Mailbox.{Request, step, new_channel}

-- What is sent to the database, in order.
abbrev pub events_of : List Sent → List Event
events_of [] = []
events_of (persist e ∷ sent) = e ∷ events_of sent
events_of (to_client a m ∷ sent) = events_of sent
events_of (notify_broadcast m ∷ sent) = events_of sent
events_of (notify_set_user_mode m ∷ sent) = events_of sent

-- The channel, and the database after all that was sent to it.
pub record Stored : Type 0 where
  pub channel : Channel
  pub store : Persistence

-- The channel handles a message, or another actor sends an event to the database.
pub data Turn : Type 0 where
  own : Request → Turn
  other : Event → Turn

module _ (irc : IrcLibrary) (show_time : DateTime → Text) where
  -- One turn at the time `now`. `none` is a panic of the database's actor.
  unfoldable pub stored_step : Stored → DateTime × Turn → Option Stored
  stored_step w (now, own r) =
      let (c, sent) = step irc show_time w.channel r in
      Option.map (λ (p : Persistence). record { channel = c; store = p })
        (persist_events now w.store (events_of sent))
  stored_step w (now, other e) =
      Option.map (λ (p : Persistence). record w { store = p }) (persist_event now w.store e)

  unfoldable pub stored_run : Stored → List (DateTime × Turn) → Option Stored
  stored_run w [] = some w
  stored_run w (t ∷ ts) = elim (stored_step w t) [ none ↦ none | some w' ↦ stored_run w' ts ]

-- The channel that is started anew under its name on the same database, and whether it is
-- terminated. A panic of the database's query is an error of the mailbox for the channel.
unfoldable pub restart : Stored → Channel × Bool
restart w =
    let (database, id) = channel_created w.channel.name w.store.database in
    started (new_channel w.channel.name) (some id) (λ id. fetch_all_permissions id database)
