-- ===== src/Tests/Systems.antt =====
-- The actors of src/ together, and the views of their maps, on concrete data.
use titanirc.Base.{
  ◌≡◌, refl, true, none, some, List, [], ◌∷◌, map, arith, Has, Text, text, text_eq, nat_eq, lookup,
  values, contains_key,
}
use titanirc.HostMaskMap
use titanirc.HostMaskMap.{HostMaskMap, nick}
use titanirc.HostMaskMap.Table.{
  put, delete, Op, perform_all, tabulate_all, Answers, perform_all-Answers, host_mask_eq,
}
use titanirc.Irc.{Command, bare}
use titanirc.Connection.{to_nick}
use titanirc.Messages.{ChannelMessage, PrivateMessage, MessageKind, ChannelAddr}
use titanirc.Persistence.{
  Persistence, monotonically_increasing_id, fetch_unseen_channel_messages,
  fetch_unseen_private_messages,
}
use titanirc.Persistence.Mailbox.{persist_events}
use titanirc.Channel.{Channel}
use titanirc.Channel.Handlers.{handle_message}
use titanirc.Server.Handlers.{handle_private_message}
use titanirc.Client
use titanirc.Client.{Client, Notice, stop}
use titanirc.Channel.Handlers.{kind_command}
use titanirc.Client.Handlers.{handle_own_nick_change, stopped, send_unseen_private_messages}
use titanirc.Client.Liveness.{Moment, received, tick, live_all, silent_client_stops}
use titanirc.Channel.Store.{events_of}
use titanirc.System.{World, deliver_all, server_events}
use titanirc.System.Absent.{absent_user_informed}
use titanirc.System.Offline.{columns, offline_message_delivered}
use titanirc.System.Departure.{stopped_forgotten}
use titanirc.System.Renaming.{nick_change_agrees}
use titanirc.Tests.Samples.{
  sample_irc, sample_time, sample_server, sample_channel, alice, bob, bob_mask, bo_addr,
}
use titanirc.Tests.Servers.{bob_mask-IsValid}
use titanirc.Tests.Stores.{store}
use titanirc.Tests.Clients.{bob_client, sample_surroundings}
use titanirc.Tests.Channels.{alice_chatters}

abbrev ops : List (Op Text)
ops = put bob_mask (text "x") ∷ delete bob_mask ∷ []

perform_all-Answers_example : Answers (perform_all HostMaskMap.new ops) (tabulate_all [] ops)
perform_all-Answers_example = perform_all-Answers ops (bob_mask-IsValid, (bob_mask-IsValid, tt))

-- Bob is in one channel, at the address 5.
abbrev world : World
world = record {
  server = sample_server;
  channels = (5, sample_channel) ∷ [];
  heard = [];
  events = [];
}

nick_change_agrees_example :
    let (c', sent) = handle_own_nick_change 2 bob_client (text "ro") true in
    let w' : World = deliver_all sample_irc sample_time 9 world sent in
    (c'.connection ≡ record bob { nick = text "ro" })
    × (lookup 2 w'.server.clients ≡ some (record bob { nick = text "ro" }))
    × ((a : ChannelAddr) (ch : Channel)
        → Has a (values bob_client.channels)
        → lookup a world.channels ≡ some ch
        → contains_key bo_addr ch.clients ≡ true
        → (ch' : Channel) × (lookup a w'.channels ≡ some ch')
          × (lookup 2 ch'.clients ≡ some (record bob { nick = text "ro" })))
nick_change_agrees_example =
    nick_change_agrees sample_irc sample_time 9 2 bob_client (text "ro") world bob refl

stopped_forgotten_example :
    let w' : World = deliver_all sample_irc sample_time 9 world (stopped 2 bob_client).1 in
    (lookup 2 w'.server.clients ≡ none)
    × ((a : ChannelAddr) (ch : Channel)
        → Has a (values bob_client.channels)
        → lookup a world.channels ≡ some ch
        → (ch' : Channel) × (lookup a w'.channels ≡ some ch') × (lookup 2 ch'.clients ≡ none))
stopped_forgotten_example = stopped_forgotten sample_irc sample_time 9 2 bob_client world

-- Alice speaks while the user 3 is away.
abbrev hello : ChannelMessage
hello = record { client = 1; kind = MessageKind.normal; message = text "hello" }

abbrev sample_store : Persistence
sample_store = record store { database = record store.database { channels = (text "#a", 7) ∷ [] } }

absent_user_informed_example :
    (p' : Persistence) × (persist_events 70 sample_store
        (events_of (handle_message sample_irc sample_channel hello).1)
      ≡ some p')
    × Has
        (record {
          channel = 7;
          timestamp = monotonically_increasing_id 70 sample_store;
          sender = text "al";
          message = text "hello";
          kind = MessageKind.normal;
        })
        (fetch_unseen_channel_messages 80 p' (text "#a") 3)
unfolding to_nick
absent_user_informed_example =
    absent_user_informed sample_irc 70 80 sample_store sample_channel hello alice 3 refl
      alice_chatters (refl, (refl, tt)) refl (omega arith) (omega arith)

abbrev to_carol : PrivateMessage
to_carol = record { destination = 3; message = text "hi"; kind = MessageKind.normal; from = 1 }

abbrev carol_client : Client
carol_client = record bob_client {
  connection = record bob {
    user_id = 3;
    capabilities = record bob.capabilities { server_time = true };
  };
}

offline_message_delivered_example :
    (p' : Persistence) × (persist_events 70 store
        (server_events (handle_private_message sample_irc sample_server to_carol))
      ≡ some p')
    × (let (d, given) = fetch_unseen_private_messages 3 p'.database in
        Has
          (Client.notify (
            Notice.unicast (record {
              tags =
                  some
                    ((text "time", some (sample_time (monotonically_increasing_id 70 store))) ∷ []);
              prefix = some (sample_irc.prefix_from_str (sample_irc.show_prefix (to_nick alice)));
              command = kind_command MessageKind.normal (text "bo") (text "hi");
            })))
          (send_unseen_private_messages sample_irc sample_time carol_client (map columns given))
        × ((fetch_unseen_private_messages 3 d).1 ≡ []))
offline_message_delivered_example =
    offline_message_delivered sample_irc sample_time 70 sample_server to_carol alice store
      carol_client refl (refl, (refl, tt)) refl

-- Bob talks, and answers no ping.
abbrev moments : List Moment
moments =
    tick 10
    ∷ tick 40
    ∷ received 50 (some (bare (Command.privmsg (text "#a") (text "hi"))))
    ∷ tick 70
    ∷ tick 100
    ∷ tick 130
    ∷ []

silent_client_stops_example : Has stop (live_all sample_surroundings bo_addr bob_client moments)
silent_client_stops_example =
    silent_client_stops sample_surroundings bo_addr moments bob_client 10 (omega arith)
      (tt, (tt, (refl, (tt, (tt, (tt, tt)))))) refl
