-- ===== src/Tests/Connections.antt =====
-- The negotiation of src/connection.rs on concrete data.
use titanirc.Base.{
  ◌≡◌, refl, true, false, some, none, List, [], ◌∷◌, ◌++◌, text, text_eq, ◌==◌, if◌then◌else◌, Text,
}
use titanirc.Irc.{Message, Command, bare}
use titanirc.Connection.{InitiatedConnection, Hashing, initiate, new}
use titanirc.Connection.Sasl.{plain, auth_strategy_from_str}
use titanirc.Connection.Authenticate.{
  Credentials, correct, wrong_password, accepted, handle_plain_authentication, plain_parts,
  check_password, verdict_result, handle_strategy, handle_authenticate,
}
use titanirc.Connection.Negotiation.{
  Environment, Negotiation, Item, message, initiated, negotiate_loop, negotiate_client_connection,
  handle_command, go_on, panic, start,
}
use titanirc.Connection.Proof.{IsProof, handle_plain_authentication-IsProof}
use titanirc.Connection.Laws.{authenticate_after_cancel}
use titanirc.Tests.Samples.{sample_irc}

-- Messages are not encoded, every user has the number 1, and a password is its own hash.
abbrev pub sample_credentials : Credentials
sample_credentials = record {
  decode = λ s. some s;
  from_utf8 = λ b. some b;
  fetch_user = λ name password. (1, text "pw");
  verify_password = λ password hash. if password == hash then correct else wrong_password;
}

abbrev pub sample_hashing : Hashing
sample_hashing = record { cloak_digits = λ a. text "x"; show_ip = λ a. text "ip" }

abbrev pub sample_environment : Environment
sample_environment = record {
  irc = sample_irc;
  hashing = sample_hashing;
  credentials = sample_credentials;
  now = 0;
  reverse_lookup = λ a. none;
  reserve_nick = λ id nick. some true;
}

abbrev pub proof_of_al : Text
proof_of_al = text "al" ++ (0 ∷ (text "al" ++ (0 ∷ text "pw")))

al_accepted : handle_plain_authentication sample_credentials proof_of_al ≡ accepted (text "al") 1
unfolding handle_plain_authentication plain_parts check_password verdict_result
al_accepted = refl

handle_plain_authentication-IsProof_example : IsProof sample_credentials (text "al") 1 proof_of_al
handle_plain_authentication-IsProof_example =
    handle_plain_authentication-IsProof sample_credentials proof_of_al (text "al") 1 al_accepted

abbrev pub session : List Item
session =
    message (bare (Command.nick (text "al")))
    ∷ message (bare (Command.user (text "al") (text "0") (text "Al")))
    ∷ message (bare (Command.authenticate (text "PLAIN")))
    ∷ message (bare (Command.authenticate proof_of_al))
    ∷ []

abbrev pub al_connection : InitiatedConnection
al_connection = record {
  host = 4;
  resolved_host = none;
  cloak = text "cloaked-x";
  nick = text "al";
  user = text "al";
  mode = record { wallops = false; oper = false };
  real_name = text "Al";
  user_id = 1;
  capabilities = record { userhost_in_names = false; server_time = false };
  away = none;
  at = 0;
}

pub session_initiates :
    (negotiate_client_connection sample_environment 4 session).1 ≡ initiated al_connection
unfolding negotiate_client_connection negotiate_loop handle_command handle_authenticate
    handle_strategy auth_strategy_from_str handle_plain_authentication plain_parts check_password
    verdict_result new initiate
session_initiates = refl

abbrev selected : Negotiation
selected = record (start sample_environment 4) {
  authenticator = record { selected_strategy = some plain; stopped = false };
}

authenticate_after_cancel_example :
    (n' : Negotiation) × (out : List Message) × (handle_command sample_environment selected
        (Command.authenticate (text "*"))
      ≡ go_on n' out)
    × (handle_command sample_environment n' (Command.authenticate (text "PLAIN")) ≡ panic)
authenticate_after_cancel_example =
    authenticate_after_cancel sample_environment selected (text "PLAIN") refl refl
