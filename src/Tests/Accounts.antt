-- ===== src/Tests/Accounts.antt =====
-- The tables of src/database/mod.rs and the admission of src/main.rs on concrete data.
use titanirc.Base.{
  ◌≡◌, ◌↔◌, refl, true, none, some, [], ◌∷◌, ◌++◌, text, List, Text, Has, text_eq, ◌==◌,
  if◌then◌else◌, beq_refl, beq_ne,
}
use titanirc.HostMaskMap.{get, get_inner}
use titanirc.HostMaskMap.Globs.{matches, new-IsRoot}
use titanirc.Connection.{to_host_mask}
use titanirc.Connection.Authenticate.{Bytes, correct, wrong_password, accepted, check_password}
use titanirc.Connection.Negotiation.{negotiate_client_connection}
use titanirc.Database.{UserRow, Argon, create_user_or_fetch_password_hash, credentials}
use titanirc.Database.Registration.{IsSecure, first_password_binds, ids_name_one_user}
use titanirc.HostMask.{HostMask}
use titanirc.Messages.{Gline}
use titanirc.Server.{new_server}
use titanirc.Server.Responses.{ServerBan}
use titanirc.Server.Bans.{g_lined, handle_gline, handle_validate_connection}
use titanirc.Acceptor.{error_message, new_client, accept_connection}
use titanirc.Acceptor.Admission.{IsAuthorized, accept_connection-IsAuthorized, gline_keeps_out}
use titanirc.Tests.Samples.{alice, star}
use titanirc.Tests.Connections.{sample_environment, session, al_connection, session_initiates}

-- A password is its own hash.
abbrev plain_argon : Argon
plain_argon = record {
  hash_password = λ password salt. password;
  verify = λ guess hash. if guess == hash then correct else wrong_password;
}

plain_argon-IsSecure : IsSecure plain_argon
plain_argon-IsSecure = record {
  same = λ password salt. rw (beq_refl password) refl;
  other = λ password guess salt n. rw (beq_ne guess password n) refl;
}

abbrev al_row : UserRow
al_row = record { id = 1; username = text "al"; password = text "pw" }

-- Somebody tries Bo's name, and Cy comes.
abbrev later_logins : List (Text × Text × Bytes)
later_logins = ([], text "bo", text "guess") ∷ ([], text "cy", text "other") ∷ []

first_password_binds_example :
    (check_password
        (credentials plain_argon
          (λ s. some s)
          (λ b. some b)
          []
          (record { id = 3; username = text "cy"; password = text "other" }
            ∷ record { id = 2; username = text "bo"; password = text "secret" }
            ∷ al_row
            ∷ []))
        (text "guess")
        (some (text "bo"))
      ≡ accepted (text "bo") 2)
    ↔ (text "guess" ≡ text "secret")
unfolding create_user_or_fetch_password_hash
first_password_binds_example =
    first_password_binds plain_argon (λ s. some s) (λ b. some b) [] [] (al_row ∷ []) (text "bo")
      (text "secret") (text "guess") later_logins plain_argon-IsSecure refl

ids_name_one_user_example : text "al" ≡ text "al"
unfolding create_user_or_fetch_password_hash
ids_name_one_user_example =
    ids_name_one_user plain_argon [] [] (al_row ∷ []) (text "al") (text "al") (text "pw")
      (text "other") (refl, tt, tt) refl

abbrev al_mask : HostMask
al_mask = record { nick = text "al"; username = star; host = star }

al_admitted :
    (accept_connection sample_environment 0 3 [] (new_server none) 4 session).started
    ≡ some (new_client 0 al_connection, record { handle = 3; connection = al_connection })
unfolding accept_connection handle_validate_connection get get_inner
al_admitted = rw session_initiates refl

accept_connection-IsAuthorized_example :
    IsAuthorized sample_environment
      (new_server none)
      (new_client 0 al_connection)
      (record { handle = 3; connection = al_connection })
accept_connection-IsAuthorized_example =
    accept_connection-IsAuthorized sample_environment 0 3 [] (new_server none) 4 session
      (new_client 0 al_connection) (record { handle = 3; connection = al_connection }) al_admitted

abbrev gline_al : Gline
gline_al = record { requester = alice; mask = al_mask; duration = none; reason = none }

al_matched : matches gline_al.mask (to_host_mask al_connection) ≡ true
unfolding to_host_mask
al_matched = refl

gline_keeps_out_example :
    (ban : ServerBan) × Has ban
      (get (handle_gline 5 (new_server none) gline_al).0.bans (to_host_mask al_connection))
    × (accept_connection sample_environment 0 3 []
          (handle_gline 5 (new_server none) gline_al).0
          4
          session
        ≡ record {
          written =
              (negotiate_client_connection sample_environment 4 session).0
              ++ error_message (g_lined ban.reason) ∷ [];
          started = none;
        })
gline_keeps_out_example =
    gline_keeps_out sample_environment 0 5 3 [] (new_server none) gline_al 4 session al_connection
      new-IsRoot session_initiates al_matched refl
