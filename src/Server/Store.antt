-- ===== src/Server/Store.antt =====
-- The server of src/server.rs with the database that it writes its bans to.
pub mod Sync
pub mod Steps
pub mod Restart
pub mod Panics
use titanirc.Base.{Option, none, some, List, [], ◌∷◌, Text, Bool, true, false, if◌then◌else◌}
use mathlib.Core.Option
use titanirc.Irc.{IrcLibrary}
use titanirc.Connection.{DateTime}
use titanirc.Messages.{Event}
use titanirc.Persistence.{Persistence}
use titanirc.Persistence.Mailbox.{persist_events}
use titanirc.Persistence.Upkeep.{persist_list_bans}
use titanirc.Server.{
  Server, Sent, to_client, persist, start_channel, forward_join, panic, new_server,
}
use titanirc.Server.Bans.{load_server_ban_list}
use titanirc.Server.Mailbox.{Request, step}

-- What is sent to the database, in order.
abbrev pub events_of : List Sent → List Event
events_of [] = []
events_of (persist e ∷ sent) = e ∷ events_of sent
events_of (to_client a m ∷ sent) = events_of sent
events_of (start_channel a name ∷ sent) = events_of sent
events_of (forward_join a m ∷ sent) = events_of sent
events_of (panic ∷ sent) = events_of sent

-- Whether the handler has panicked.
abbrev pub panics : List Sent → Bool
panics [] = false
panics (panic ∷ sent) = true
panics (persist e ∷ sent) = panics sent
panics (to_client a m ∷ sent) = panics sent
panics (start_channel a name ∷ sent) = panics sent
panics (forward_join a m ∷ sent) = panics sent

-- The server, and the database after all that the server has sent to it.
pub record Stored : Type 0 where
  pub server : Server
  pub store : Persistence

module _ (irc : IrcLibrary) (version : Text) where
  -- A message to the server, at the time `now`, with what the database makes of it. `none` is a
  -- panic of the server's handler or of the database's actor.
  unfoldable pub stored_step : Stored → DateTime × Request → Option Stored
  stored_step w (now, r) =
      let (s, sent) = step irc version w.server r in
      if panics sent
      then none
      else Option.map (λ (p : Persistence). record { server = s; store = p })
          (persist_events now w.store (events_of sent))

  unfoldable pub stored_run : Stored → List (DateTime × Request) → Option Stored
  stored_run w [] = some w
  stored_run w (r ∷ rs) = elim (stored_step w r) [ none ↦ none | some w' ↦ stored_run w' rs ]

-- The server that is started anew on the same database.
unfoldable pub restart : Option Text → Stored → Server
restart motd w =
    (load_server_ban_list (new_server motd) (some (persist_list_bans w.store.database))).0
