-- ===== src/Tests/Servers.antt =====
-- The handlers of src/server.rs on concrete data.
use titanirc.Base.{
  ◌≤◌, ◌<◌, ◌≡◌, ◌≢◌, ◌⊎◌, refl, true, arith, some, none, [], ◌∷◌, text, nat_eq, lookup, Has,
}
use titanirc.Irc.{from_prefix}
use titanirc.HostMask.RoundTrip.{IsValid}
use titanirc.HostMaskMap
use titanirc.HostMaskMap.{nick, get, insert}
use titanirc.HostMaskMap.Paths.{path}
use titanirc.HostMaskMap.Stored.{stored}
use titanirc.HostMaskMap.Globs.{matches, new-IsRoot, insert-IsRoot}
use titanirc.Connection.{DateTime, InitiatedConnection, to_host_mask, to_nick}
use titanirc.Messages.{
  MessageKind, broadcast, kill_user, server_ban, private_message, PrivateMessage, UserNickChange,
  UserConnected,
}
use titanirc.Channel.Handlers.{kind_command}
use titanirc.Server.{Server, to_client, persist, new_server}
use titanirc.Server.Responses.{ServerBan}
use titanirc.Server.Handlers.{tell, handle_private_message}
use titanirc.Server.Routing.{private_message_reaches, private_message_heard_only}
use titanirc.Server.Bans.{ban_of, kill_by, handle_gline, remove_expired_bans}
use titanirc.Server.Bans.Enforcement.{gline_kills, gline_kills_only}
use titanirc.Server.Bans.Expiry.{remove_expired_bans_exact}
use titanirc.Server.Bans.Readable.{new-StoresValid, insert-StoresValid}
use titanirc.Server.Mailbox.{
  connecting, glining, expiring, IsSound, run, server_run-IsSound, new_server-IsSound,
}
use titanirc.Tests.Samples.{
  sample_irc, sample_server, alice, bob, bob_mask, gline_bob, al_addr, bo_addr,
}

pub bob_matched : matches gline_bob.mask (to_host_mask bob) ≡ true
unfolding to_host_mask
bob_matched = refl

gline_kills_example :
    Has (to_client 2 (kill_user (kill_by gline_bob bob))) (handle_gline 5 sample_server gline_bob).1
    × Has
        (persist (server_ban bob_mask 1 [] 5 (some 15)))
        (handle_gline 5 sample_server gline_bob).1
gline_kills_example = gline_kills 5 sample_server gline_bob 2 bob new-IsRoot refl bob_matched refl

gline_kills_only_example :
    (user : InitiatedConnection) × Has (2, user) sample_server.clients
    × (kill_user (kill_by gline_bob bob) ≡ kill_user (kill_by gline_bob user))
    × ((matches bob_mask (to_host_mask user) ≡ true)
        ⊎ ((ban : ServerBan) × Has ban (get sample_server.bans (to_host_mask user))))
gline_kills_only_example =
    gline_kills_only 5 sample_server gline_bob 2 (kill_user (kill_by gline_bob bob)) new-IsRoot
      gline_kills_example.0

pub bob_mask-IsValid : IsValid bob_mask
bob_mask-IsValid = record {
  nick_section = refl;
  username_section = refl;
  host_section = refl;
  no_bang = refl;
  no_at = refl;
}

abbrev banned_server : Server
banned_server = record sample_server {
  bans = insert sample_server.bans bob_mask (ban_of gline_bob 5);
}

ban_stored : stored banned_server.bans (path nick bob_mask) ≡ some (ban_of gline_bob 5)
unfolding insert HostMaskMap.insert_fuel
ban_stored = refl

remove_expired_bans_exact_example :
    ((stored (remove_expired_bans 20 banned_server).0.bans (path nick bob_mask) ≡ none)
      × ((t : DateTime) × ((ban_of gline_bob 5).expires ≡ some t) × (t ≤ 20)))
    ⊎ ((stored (remove_expired_bans 20 banned_server).0.bans (path nick bob_mask)
          ≡ some (ban_of gline_bob 5))
        × (((ban_of gline_bob 5).expires ≡ none)
            ⊎ ((t : DateTime) × ((ban_of gline_bob 5).expires ≡ some t) × (20 < t))))
remove_expired_bans_exact_example =
    remove_expired_bans_exact 20 banned_server bob_mask (ban_of gline_bob 5)
      (insert-IsRoot sample_server.bans bob_mask (ban_of gline_bob 5) new-IsRoot)
      (insert-StoresValid sample_server.bans bob_mask (ban_of gline_bob 5) new-IsRoot
        bob_mask-IsValid refl new-StoresValid)
      bob_mask-IsValid ban_stored

-- Alice writes to Bob, and to somebody who is away.
abbrev to_bob : PrivateMessage
to_bob = record { destination = 2; message = text "hi"; kind = MessageKind.normal; from = 1 }

abbrev to_nobody : PrivateMessage
to_nobody = record { destination = 9; message = text "hi"; kind = MessageKind.notice; from = 1 }

bo_ne_al : bo_addr ≢ al_addr
bo_ne_al = omega arith

private_message_reaches_example :
    Has
      (tell 2
        (from_prefix (to_nick alice) (kind_command MessageKind.normal (text "bo") (text "hi"))))
      (handle_private_message sample_irc sample_server to_bob)
    × (¬ Has
        (persist (private_message [] 2 [] MessageKind.normal))
        (handle_private_message sample_irc sample_server to_bob))
private_message_reaches_example =
    private_message_reaches sample_irc sample_server to_bob alice bob 2
      (private_message [] 2 [] MessageKind.normal) refl refl refl bo_ne_al

private_message_heard_only_example :
    (source conn : InitiatedConnection) × (lookup 1 sample_server.clients ≡ some source)
    × Has (2, conn) sample_server.clients
    × (conn.user_id ≡ 2)
    × (bo_addr ≢ al_addr)
    × (broadcast
          (from_prefix (to_nick alice) (kind_command MessageKind.normal (text "bo") (text "hi")))
        ≡ broadcast
            (from_prefix (to_nick source) (kind_command MessageKind.normal conn.nick (text "hi"))))
private_message_heard_only_example =
    private_message_heard_only sample_irc sample_server to_bob 2
      (broadcast
        (from_prefix (to_nick alice) (kind_command MessageKind.normal (text "bo") (text "hi"))))
      private_message_reaches_example.0

abbrev rename_bob : UserNickChange
rename_bob = record { client = 2; connection = bob; new_nick = text "ro" }

abbrev bob_connects : UserConnected
bob_connects = record { handle = 2; connection = bob }

server_run-IsSound_example : IsSound (
    run sample_irc
      (text "1")
      (new_server none)
      (connecting bob_connects ∷ glining 5 gline_bob ∷ expiring 20 ∷ []))
server_run-IsSound_example =
    server_run-IsSound sample_irc (text "1") (new_server none)
      (connecting bob_connects ∷ glining 5 gline_bob ∷ expiring 20 ∷ [])
      (tt, (bob_mask-IsValid, (tt, tt))) (new_server-IsSound none)
