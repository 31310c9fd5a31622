-- ===== src/Server/Store/Restart.antt =====
-- The server of src/server.rs that is started anew on the database of an earlier one.
use titanirc.Base.{
  ◌≡◌, refl, sym, ◌∙◌, ◌↔◌, inl, inr, Bool, true, false, ◌||◌, Option, some, is_some, if◌then◌else◌,
  List, [], ◌∷◌, map, lookup, nat_eq, text_eq, Text, All, Option-cases, HashMap,
}
use titanirc.Irc.{IrcLibrary}
use titanirc.HostMaskMap
use titanirc.HostMaskMap.{HostMaskMap, Key, nick, iter, get, insert_all, from_iter}
use titanirc.HostMaskMap.Paths.{path, path_beq}
use titanirc.HostMaskMap.Stored.{stored, stored-empty}
use titanirc.HostMaskMap.Insertion.{stored-insert}
use titanirc.HostMaskMap.Globs.{IsRoot, insert-IsRoot, new-IsRoot, from_iter-IsRoot}
use titanirc.HostMaskMap.Alike.{found_alike}
use titanirc.Connection.{UserId, DateTime, InitiatedConnection, to_host_mask}
use titanirc.Persistence.{BanRow}
use titanirc.Persistence.Upkeep.{persist_list_bans, join_bans, joined_ban}
use titanirc.Server.{Server}
use titanirc.Server.Responses.{ban_from_entry, ServerBan, allowed, ServerListBanEntry}
use titanirc.Server.Bans.{ban_entry, load_server_ban_list, handle_validate_connection}
use titanirc.Server.Bans.Enforcement.{validate_connection_cases}
use titanirc.Server.Mailbox.{Request}
use titanirc.Server.Store.{Stored, stored_run, restart}
use titanirc.Server.Store.Sync.{has_path, IsKnown}
use titanirc.Server.Store.Steps.{IsAsked, IsStored, run-IsStored}

or_false : (b : Bool) → (b || false) ≡ b
or_false true = refl
or_false false = refl

path_or :
    (b c : Bool) (ban : ServerBan) (o : Option ServerBan)
    → (c || is_some (if b then some ban else o)) ≡ ((b || c) || is_some o)
path_or true true ban o = refl
path_or true false ban o = refl
path_or false true ban o = refl
path_or false false ban o = refl

abbrev entry_of : BanRow → Text → ServerListBanEntry
entry_of r name = record {
  requester = name;
  mask = r.mask;
  reason = r.reason;
  created_timestamp = r.created;
  expires_timestamp = r.expires;
}

rows_listed :
    (users : HashMap UserId Text) (r : BanRow) (rows : List BanRow) (name : Text)
    → lookup r.requester users ≡ some name
    → join_bans users (r ∷ rows) ≡ entry_of r name ∷ join_bans users rows
rows_listed users r rows name e = rw (join_bans, joined_ban, e) refl

-- The rows of a list are loaded under their paths.
stored-loaded :
    (users : HashMap UserId Text) (rows : List BanRow) (out : HostMaskMap ServerBan) (q : List Key)
    → IsRoot out
    → All (IsKnown users) rows
    → is_some (stored (insert_all (map ban_entry (join_bans users rows)) out) q)
      ≡ (has_path rows q || is_some (stored out q))
unfolding insert_all
stored-loaded users [] out q root known = refl
stored-loaded users (r ∷ rows) out q root known = elim (Option-cases (lookup r.requester users)) [
  | inl e ↦ absurd (cc (e, known.0))
  | inr (name, e) ↦
      let ban = ban_from_entry (entry_of r name) in
      rw (rows_listed users r rows name e) (
        stored-loaded users rows (HostMaskMap.insert out r.mask ban) q
          (insert-IsRoot out r.mask ban root) known.1
        ∙ rw (stored-insert out r.mask ban q root.well_formed, root.at_nick)
            (path_or (path_beq (path nick r.mask) q) (has_path rows q) ban (stored out q)))
]

allowed_alike :
    (s t : Server) (conn : InitiatedConnection)
    → IsRoot s.bans
    → IsRoot t.bans
    → ((q : List Key) → is_some (stored s.bans q) ≡ is_some (stored t.bans q))
    → handle_validate_connection s conn ≡ allowed
    → handle_validate_connection t conn ≡ allowed
unfolding handle_validate_connection
allowed_alike s t conn rs rt same ok = elim (validate_connection_cases t conn) [
  | inl (none_, yes_) ↦ yes_
  | inr (ban, h, no_) ↦
      let (u, k) = found_alike t.bans s.bans (to_host_mask conn) ban rt rs (λ q. sym (same q)) h in
      elim (validate_connection_cases s conn) [
        | inl (none_, yes_) ↦ absurd (rw none_ at k)
        | inr (other, k', no') ↦ absurd (cc (ok, no'))
      ]
]

module _ (irc : IrcLibrary) (version : Text) (users : HashMap UserId Text) where
  -- A server that is started anew on the database has the bans of the one before it.
  restart_keeps :
      (w : Stored) (motd : Option Text) (q : List Key)
      → IsStored irc version users w
      → is_some (stored (restart motd w).bans q) ≡ is_some (stored w.server.bans q)
  unfolding restart load_server_ban_list persist_list_bans from_iter
  restart_keeps w motd q h =
      let rows = w.store.database.server_bans in
      let loaded = stored-loaded users rows HostMaskMap.new q new-IsRoot h.synced.known in
      let nothing = stored-empty {T = ServerBan} nick q in
      rw (h.synced.same_users, h.synced.same q) (loaded ∙ rw nothing (or_false (has_path rows q)))

  -- Whatever sequence of messages a server has handled without a panic, its own or the database's,
  -- a server that is then started anew lets in the same connections.
  pub restart_enforces :
      (w w' : Stored) (rs : List (DateTime × Request)) (motd : Option Text)
      (conn : InitiatedConnection)
      → IsStored irc version users w
      → All (λ r. IsAsked users r.1) rs
      → stored_run irc version w rs ≡ some w'
      → (handle_validate_connection (restart motd w') conn ≡ allowed)
        ↔ (handle_validate_connection w'.server conn ≡ allowed)
  unfolding restart load_server_ban_list
  restart_enforces w w' rs motd conn h asked ran =
      let h' : IsStored irc version users w' =
        rw ran at (run-IsStored irc version users w rs asked h) in
      let root = from_iter-IsRoot (map ban_entry (persist_list_bans w'.store.database)) in
      let same = λ (q : List Key). restart_keeps w' motd q h' in
      (
        allowed_alike (restart motd w') w'.server conn root h'.sound.rooted same,
        allowed_alike w'.server (restart motd w') conn h'.sound.rooted root (λ q. sym (same q)),
      )
