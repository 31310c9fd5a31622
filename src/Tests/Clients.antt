-- ===== src/Tests/Clients.antt =====
-- The actor of src/client.rs on concrete data.
use titanirc.Base.{false, Option, some, none, [], ◌∷◌, Text, text, text_eq, ◌==◌, if◌then◌else◌}
use titanirc.Irc.{Message, Command, bare}
use titanirc.Messages.{Duration}
use titanirc.Client.{Client}
use titanirc.Client.Stream.{Surroundings, handle_item}
use titanirc.Client.Guards.{AreAllowed, handle_item-AreAllowed}
use titanirc.Tests.Samples.{sample_irc, sample_time, bob, bo_addr}

abbrev pub one_day : Text → Option Duration
one_day s = if s == text "1d" then some 86400 else none

abbrev pub sample_surroundings : Surroundings
sample_surroundings = record {
  irc = sample_irc;
  humantime = one_day;
  version = text "titanirc-1";
  info = text "info";
  show_timestamp = sample_time;
  format_time = sample_time;
}

abbrev pub bob_client : Client
bob_client = record {
  connection = bob;
  channels = (text "#a", 5) ∷ [];
  last_active = 0;
  graceful_shutdown = false;
  server_leave_reason = none;
}

abbrev parting : Option Message
parting = some (bare (Command.part (text "#a") none))

abbrev banning : Option Message
banning = some (bare (Command.raw (text "GLINE") (text "al!*@*" ∷ [])))

handle_item-AreAllowed_example :
    AreAllowed bob_client (handle_item sample_surroundings bo_addr 9 bob_client banning).1
handle_item-AreAllowed_example =
    handle_item-AreAllowed sample_surroundings bo_addr 9 bob_client banning
