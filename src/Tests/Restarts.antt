-- ===== src/Tests/Restarts.antt =====
-- The server of src/server.rs and its database on concrete data.
use titanirc.Base.{
  ◌≡◌, ◌⊎◌, lookup, nat_eq, ◌↔◌, refl, true, false, none, some, is_some, [], ◌∷◌, HashMap, List,
  Text, text,
}
use titanirc.HostMaskMap.{nick}
use titanirc.HostMaskMap.Paths.{path}
use titanirc.HostMaskMap.Stored.{stored, stored-empty}
use titanirc.Connection.{UserId, DateTime}
use titanirc.Persistence.{BanRow}
use titanirc.Persistence.Upkeep.{persist_ban}
use titanirc.Persistence.Mailbox.{persist_event, persist_events}
use titanirc.Server.{new_server}
use titanirc.Server.Responses.{allowed}
use titanirc.Server.Bans.{handle_validate_connection, handle_gline}
use titanirc.Server.Mailbox.{Request, glining, step, new_server-IsSound}
use titanirc.Server.Store.{Stored, stored_step, stored_run, restart}
use titanirc.Server.Store.Steps.{IsStored}
use titanirc.Server.Store.Restart.{restart_enforces}
use titanirc.Server.Store.Panics.{IsTooLate, gline_panics_iff}
use titanirc.Tests.Samples.{sample_irc, bob, bob_mask, gline_bob}
use titanirc.Tests.Servers.{bob_mask-IsValid}
use titanirc.Tests.Stores.{store}

abbrev users : HashMap UserId Text
users = (1, text "al") ∷ (2, text "bob") ∷ []

abbrev fresh : Stored
fresh = record {
  server = new_server none;
  store = record store { database = record store.database { users = users } };
}

fresh-IsStored : IsStored sample_irc (text "1") users fresh
fresh-IsStored = record {
  sound = new_server-IsSound none;
  synced = record {
    valid = tt;
    same = λ q. rw (stored-empty nick q) refl;
    known = tt;
    same_users = refl;
  };
}

abbrev ban_bob : List (DateTime × Request)
ban_bob = (7, glining 5 gline_bob) ∷ []

abbrev bob_row : BanRow
bob_row = record { mask = bob_mask; requester = 1; reason = []; created = 5; expires = some 15 }

abbrev banned : Stored
banned = record {
  server = (handle_gline 5 fresh.server gline_bob).0;
  store = record fresh.store {
    database = record fresh.store.database { server_bans = bob_row ∷ [] };
  };
}

bob_banned : stored_run sample_irc (text "1") fresh ban_bob ≡ some banned
unfolding stored_run stored_step step handle_gline persist_events persist_event persist_ban
bob_banned = refl

restart_enforces_example :
    (handle_validate_connection (restart none banned) bob ≡ allowed)
    ↔ (handle_validate_connection banned.server bob ≡ allowed)
restart_enforces_example =
    restart_enforces sample_irc (text "1") users fresh banned ban_bob none bob fresh-IsStored
      ((bob_mask-IsValid, refl), tt) bob_banned

gline_panics_iff_example :
    (stored_step sample_irc (text "1") fresh (7, glining 5 gline_bob) ≡ none) ↔ (
      (is_some (stored fresh.server.bans (path nick gline_bob.mask)) ≡ true)
      ⊎ (is_some (lookup 1 users) ≡ false)
      ⊎ IsTooLate 5 (some 15))
gline_panics_iff_example =
    gline_panics_iff sample_irc (text "1") users fresh 7 5 gline_bob fresh-IsStored bob_mask-IsValid
