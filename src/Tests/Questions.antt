-- ===== src/Tests/Questions.antt =====
-- The questions of src/client.rs and their answers on concrete data.
use titanirc.Base.{refl, inl, none, some, Bool, false, [], ◌∷◌, text, Has, nat_eq, text_eq}
use titanirc.Permission.{Permission}
use titanirc.Messages.{ChannelSetMode}
use titanirc.Channel.Handlers.{handle_member_list, handle_set_mode, handle_fetch_topic}
use titanirc.Client.{Client, Question}
use titanirc.Client.Answers.{server_send_map_write, channel_send_map_write}
use titanirc.Server.Responses.{Printing}
use titanirc.Server.Protocol.{topic_protocol, option_protocol, ban_list_protocol}
use titanirc.System.Answers.{Network, respond, AreWrittenFor, answer_protocol, answers_addressed}
use titanirc.System.Whois.{whois_agrees}
use titanirc.Tests.Samples.{sample_time, sample_server, sample_channel, bob, bo_addr}

abbrev printing : Printing
printing = record { show_timestamp = sample_time; show_date = sample_time; show_ip = sample_time }

abbrev bob_client : Client
bob_client = record {
  connection = bob;
  channels = (text "#a", 7) ∷ [];
  last_active = 0;
  graceful_shutdown = false;
  server_leave_reason = none;
}

abbrev network : Network
network = record {
  server = sample_server;
  channels = λ a. sample_channel;
  clients = λ a. bob_client;
}

answers_addressed_example :
    ((q : Question)
      → AreWrittenFor printing sample_time bob.nick (
          server_send_map_write ⦃p = answer_protocol printing sample_time q⦄ bob_client
            (some (respond network q))))
    × ((m : ChannelSetMode)
        → AreWrittenFor printing sample_time bob.nick
            (channel_send_map_write bob_client (some (handle_set_mode sample_channel m).2)))
    × ((skip : Bool)
        → AreWrittenFor printing sample_time bob.nick (
            channel_send_map_write ⦃p = topic_protocol sample_time⦄ bob_client
              (some (handle_fetch_topic sample_channel skip))))
answers_addressed_example = answers_addressed printing sample_time network bob_client sample_channel

whois_agrees_example :
    (p : Permission) × Has (p, text "#a") (respond network (Question.whois (text "bo"))).channels
    × Has (p, bob) (handle_member_list sample_channel).nick_list
whois_agrees_example =
    whois_agrees network (text "bo") (text "#a") bo_addr bob bob 7 refl (inl refl) refl refl
