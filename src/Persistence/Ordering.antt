-- ===== src/Persistence/Ordering.antt =====
-- The order of the messages that src/persistence.rs stores.
use titanirc.Base.{◌≤◌, some, List, [], ◌∷◌, text_eq, nat_eq, All, Option, none, AreIncreasing}
use mathlib.Core.Option
use titanirc.Connection.{DateTime, UserId}
use titanirc.Messages.{Event}
use titanirc.Persistence.{Persistence, fetch_unseen_private_messages, ChannelRow, PrivateRow}
use titanirc.Persistence.Upkeep.{truncate_seen_messages}
use titanirc.Persistence.Mailbox.{with_database, persist_event}

abbrev pub sent_at : ChannelRow → DateTime
sent_at r = r.timestamp

abbrev kept_at : PrivateRow → DateTime
kept_at r = r.timestamp

-- The times of the messages of channels, and of the private ones, increase up to the clock.
pub record AreOrdered (clock : DateTime) (messages : List ChannelRow)
    (private_messages : List PrivateRow) : Type 0 where
  pub increasing : AreIncreasing sent_at messages
  pub current : All (λ r. sent_at r ≤ clock) messages
  pub private_increasing : AreIncreasing kept_at private_messages
  pub private_current : All (λ r. kept_at r ≤ clock) private_messages

abbrev pub IsOrdered : Persistence → Type 0
IsOrdered p = AreOrdered p.last_seen_clock p.database.channel_messages p.database.private_messages

-- What changes the stored messages: an event, the deletion of old ones, and a user's request for
-- the private ones.
pub data Operation : Type 0 where
  storing : DateTime → Event → Operation
  truncating : DateTime → Operation
  giving : UserId → Operation

abbrev pub operate : Persistence → Operation → Option Persistence
operate p (storing now e) = persist_event now p e
operate p (truncating now) = some (truncate_seen_messages now p)
operate p (giving user) = some (with_database p (fetch_unseen_private_messages user p.database).0)

unfoldable pub operate_all : Persistence → List Operation → Option Persistence
operate_all p [] = some p
operate_all p (o ∷ os) = elim (operate p o) [ none ↦ none | some q ↦ operate_all q os ]
