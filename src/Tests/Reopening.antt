-- ===== src/Tests/Reopening.antt =====
-- The channel of src/channel.rs and its database on concrete data.
use titanirc.Base.{◌≡◌, refl, true, false, [], ◌∷◌, List, text, some, nat_eq, text_eq}
use titanirc.HostMaskMap.{get, get_inner, new}
use titanirc.HostMaskMap.Table.{new-Represents}
use titanirc.Permission.{founder, max, max_of, cmp, can_join, into_mode}
use titanirc.Connection.{DateTime, InitiatedConnection, to_host_mask}
use titanirc.Messages.{ChannelJoin, channel_parted}
use titanirc.Persistence.{persist_joined, persist_parted, persist_permission}
use titanirc.Persistence.Mailbox.{persist_event, persist_events}
use titanirc.Channel.{get_user_permissions}
use titanirc.Channel.Responses.{topic_messages, channel_topic, names_messages}
use titanirc.Channel.Mailbox.{new_channel, joining, step}
use titanirc.Channel.Handlers.Membership.{handle_join, username_mask}
use titanirc.Channel.Store.{Stored, Turn, own, other, stored_step, stored_run, restart}
use titanirc.Channel.Store.Restart.{IsStored, restart_keeps_permissions}
use titanirc.Channel.Store.Unreadable.{bad_name_terminates}
use titanirc.Tests.Samples.{sample_irc, sample_time, person, alice, bob}
use titanirc.Tests.Stores.{store}

-- The channel with its row and no permissions yet.
abbrev opened : Stored
opened = record { channel = record (new_channel (text "#a")) { channel_id = 1 }; store = store }

opened-IsStored : IsStored opened
opened-IsStored = record {
  named = refl;
  mirrors = record { represents = new-Represents; unique = tt; valid = tt };
}

abbrev alice_joins : ChannelJoin
alice_joins = record { channel_name = text "#a"; client = 1; connection = alice }

abbrev turns : List (DateTime × Turn)
turns = (7, own (joining alice_joins)) ∷ (8, other (channel_parted 1 2)) ∷ []

-- Alice founds the channel, and another actor says that Bob has left it.
abbrev founded : Stored
founded = record {
  channel = (handle_join sample_irc sample_time opened.channel alice_joins).0;
  store = record store {
    database = persist_parted 1 2 (
        persist_permission 1 (username_mask alice.user) founder
          (persist_joined 1 alice.user_id store.database));
  };
}

founded_so : stored_run sample_irc sample_time opened turns ≡ some founded
unfolding stored_run stored_step step handle_join persist_events persist_event get_user_permissions
    get get_inner max max_of cmp can_join to_host_mask into_mode topic_messages channel_topic
    names_messages
founded_so = refl

restart_keeps_permissions_example :
    ((restart founded).1 ≡ false)
    × ((restart founded).0.channel_id ≡ founded.channel.channel_id)
    × (get_user_permissions (restart founded).0 (to_host_mask bob)
        ≡ get_user_permissions founded.channel (to_host_mask bob))
restart_keeps_permissions_example =
    restart_keeps_permissions sample_irc sample_time opened founded turns (to_host_mask bob)
      opened-IsStored
      (
        record {
          nick_section = refl;
          username_section = refl;
          host_section = refl;
          no_bang = refl;
          no_at = refl;
        },
        (tt, tt),
      )
      founded_so

-- A user with a star in the name founds the channel.
abbrev starred : InitiatedConnection
starred = person (text "a*b") 3

abbrev starred_joins : ChannelJoin
starred_joins = record { channel_name = text "#a"; client = 3; connection = starred }

abbrev spoilt : Stored
spoilt = record {
  channel = (handle_join sample_irc sample_time opened.channel starred_joins).0;
  store = record store {
    database =
        persist_permission 1 (username_mask starred.user) founder
          (persist_joined 1 starred.user_id store.database);
  };
}

spoilt_so : stored_step sample_irc sample_time opened (7, own (joining starred_joins)) ≡ some spoilt
unfolding stored_step step handle_join persist_events persist_event get_user_permissions get
    get_inner max max_of cmp can_join to_host_mask into_mode topic_messages channel_topic
    names_messages
spoilt_so = refl

starred_may : can_join (get_user_permissions opened.channel (to_host_mask starred)) ≡ true
unfolding get_user_permissions get get_inner max max_of cmp can_join to_host_mask
starred_may = refl

bad_name_terminates_example : ((restart spoilt).1 ≡ true) × ((restart spoilt).0.permissions ≡ new)
bad_name_terminates_example =
    bad_name_terminates sample_irc sample_time opened spoilt 7 starred_joins refl refl starred_may
      refl refl spoilt_so
