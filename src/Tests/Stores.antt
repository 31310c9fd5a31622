-- ===== src/Tests/Stores.antt =====
-- The stores of src/persistence.rs on concrete data.
use titanirc.Base.{◌<◌, ◌≡◌, refl, List, true, some, [], ◌∷◌, arith, text, length, text_eq}
use titanirc.Connection.{DateTime}
use titanirc.Messages.{normal, Event, channel_message, private_message}
use titanirc.Persistence.{
  Persistence, ChannelUser, reserve_nick, persist_channel_message, persist_private_message,
  fetch_unseen_private_messages, fetch_unseen_channel_messages,
}
use titanirc.Persistence.Upkeep.{truncate_seen_messages}
use titanirc.Persistence.Replay.{IsCurrent, receivers_have_seen}
use titanirc.Persistence.Mailbox.{persist_event, persist_run}
use titanirc.Persistence.Ordering.{Operation, storing, truncating, giving}
use titanirc.Persistence.Upkeep.{i64_bound}
use titanirc.Persistence.Overflow.{clock_fits}
use titanirc.Persistence.Truncation.{truncated_unseen}

abbrev pub bob_row : ChannelUser
bob_row = record { channel = 1; user = 2; in_channel = true; last_seen = some 50 }

abbrev pub store : Persistence
store = record {
  database = record {
    users = (2, text "bob") ∷ [];
    user_nicks = [];
    channels = (text "#a", 1) ∷ [];
    channel_users = bob_row ∷ [];
    channel_permissions = [];
    channel_messages =
        (record {
          channel = 1;
          timestamp = 60;
          sender = text "al";
          message = text "hi";
          kind = normal;
        })
        ∷ [];
    private_messages = [];
    server_bans = [];
  };
  max_message_replay_since = 30;
  last_seen_clock = 60;
}

store-IsCurrent : IsCurrent store
store-IsCurrent = (omega arith, tt)

bob_reserves : (reserve_nick 2 (text "bob") store.database).1 ≡ true
unfolding reserve_nick
bob_reserves = refl

bob_unseen : length (fetch_unseen_channel_messages 70 store (text "#a") 2) ≡ 1
unfolding fetch_unseen_channel_messages
bob_unseen = refl

-- Two messages, the later one first in the table.
abbrev unordered : Persistence
unordered = record store {
  database = record store.database {
    channel_messages =
        record {
          channel = 1;
          timestamp = 70;
          sender = text "al";
          message = text "ho";
          kind = normal;
        }
        ∷ store.database.channel_messages;
  };
}

receivers_have_seen_example :
    fetch_unseen_channel_messages 80
      (persist_channel_message 70 store 1 (text "al") (text "yo") (2 ∷ []) normal)
      (text "#a")
      2
    ≡ []
receivers_have_seen_example =
    receivers_have_seen 70 80 store 1 (text "#a") (text "al") (text "yo") (2 ∷ []) normal 2 bob_row
      store-IsCurrent refl refl refl

truncated_unseen_example :
    fetch_unseen_channel_messages 90 (truncate_seen_messages 70 store) (text "#a") 2
    ≡ fetch_unseen_channel_messages 90 store (text "#a") 2
truncated_unseen_example =
    truncated_unseen 70 90 store 1 (text "#a") 2 bob_row 50 (omega arith) refl refl refl

-- A message to the channel, and a private one when the clock has gone back.
abbrev two_messages : List (DateTime × Event)
two_messages =
    (70, channel_message 1 (text "al") (text "yo") (2 ∷ []) normal)
    ∷ (65, private_message (text "al") 2 (text "hey") normal)
    ∷ []

abbrev both_stored : Persistence
both_stored =
    persist_private_message 65
      (persist_channel_message 70 store 1 (text "al") (text "yo") (2 ∷ []) normal) (text "al") 2
      (text "hey") normal

both_stored_so : persist_run store two_messages ≡ some both_stored
unfolding persist_run persist_event
both_stored_so = refl

-- The same with a deletion between the two, and with what Bob then asks for.
abbrev some_operations : List Operation
some_operations =
    storing 70 (channel_message 1 (text "al") (text "yo") (2 ∷ []) normal)
    ∷ truncating 80
    ∷ storing 65 (private_message (text "al") 2 (text "hey") normal)
    ∷ giving 2
    ∷ []

abbrev handed_over : Persistence
handed_over =
    let p =
      persist_private_message 65
        (truncate_seen_messages 80
          (persist_channel_message 70 store 1 (text "al") (text "yo") (2 ∷ []) normal))
        (text "al") 2 (text "hey") normal in
    record p { database = (fetch_unseen_private_messages 2 p.database).0 }

clock_fits_example : both_stored.last_seen_clock < i64_bound
clock_fits_example =
    clock_fits two_messages 70 store both_stored (omega arith) (omega arith, (omega arith, tt))
      (omega arith) both_stored_so
