-- ===== src/Channel/Store/Unreadable.antt =====
-- When the database of src/persistence.rs cannot read back what the channel of src/channel.rs has
-- written to it.
use titanirc.Base.{
  ◌≡◌, refl, ap, ◌∙◌, inl, inr, true, false, none, some, List, [], ◌∷◌, lookup, keys, insert,
  nat_eq, nat_beq_iff, text_eq, text_beq_iff, Text, text, contains, Bool-cases, ◌==◌,
}
use mathlib.Core.Option
use titanirc.Irc.{IrcLibrary, Command, from_prefix}
use titanirc.HostMask.{
  HostMask, to_string, try_from, encode, decode, from_str, Parsed, ok, err, MaskError,
  invalid_username,
}
use titanirc.HostMask.RoundTrip.{is_section, is_invalid-eq, split_once-append}
use titanirc.HostMaskMap
use titanirc.HostMaskMap.{HostMaskMap, new}
use titanirc.Permission.{Permission, founder, can_join, into_mode}
use titanirc.Connection.{DateTime, InitiatedConnection, to_nick, to_host_mask}
use titanirc.Messages.{ChannelId, ChannelJoin, channel_joined, set_user_channel_permissions}
use titanirc.Persistence.{
  of_channel, upsert_permission, decoded_row, decode_rows, fetch_all_permissions, persist_joined,
  persist_permission,
}
use titanirc.Persistence.Mailbox.{persist_event, persist_events}
use titanirc.Channel.{Channel, get_user_permissions}
use titanirc.Channel.Handlers.{started, set_channel_id}
use titanirc.Channel.Handlers.Membership.{
  handle_join, username_mask, announce_joins, mode_message, welcome,
}
use titanirc.Channel.Mailbox.{joining, step}
use titanirc.Channel.Store.{Stored, own, events_of, stored_step, restart}
use titanirc.Channel.Store.Silence.{
  events_of-announce_joins, events_of-welcome, events_of-append_none,
}
use titanirc.Channel.Store.Loading.{restart_known}

decoded_row-none : (q : Parsed) (p : Permission) → decoded_row q p none ≡ none
decoded_row-none (ok m) p = refl
decoded_row-none (err e) p = refl

-- One row that is no mask spoils the whole query.
decode_rows-upsert :
    (id : ChannelId) (m : HostMask) (p : Permission)
    (rows : List (ChannelId × HostMask × Permission)) (e : MaskError)
    → decode (encode m) ≡ err e
    → decode_rows (of_channel id (upsert_permission id m p rows)) ≡ none
unfolding decode_rows encode
decode_rows-upsert id m p [] e bad = rw ((nat_beq_iff id id).1 refl, decode_rows, encode, bad) refl
decode_rows-upsert id m p ((i, n, q) ∷ rows) e bad =
    let later = decode_rows-upsert id m p rows e bad in
    elim (Bool-cases (i == id)) [
      | inr other ↦ rw (other, other) later
      | inl this_ ↦ elim (Bool-cases (to_string n == to_string m)) [
        | inl same ↦
            let bad' = ap decode ((text_beq_iff (to_string n) (to_string m)).0 same) ∙ bad in
            rw (this_, same, this_, decode_rows, encode, bad') refl
        | inr differ ↦
            rw (this_, differ, this_, decode_rows, later) (decoded_row-none (decode (encode n)) q)
      ]
    ]

-- The founder's mask of a user name that is no section, and has no `@`, is not read back.
username_mask_unreadable :
    (user : Text)
    → is_section user ≡ false
    → contains b'@' user ≡ false
    → decode (encode (username_mask user)) ≡ err invalid_username
unfolding decode encode from_str try_from to_string
username_mask_unreadable user bad no_at =
    rw (split_once-append b'@' user (text "*") no_at, is_invalid-eq user, bad) refl

restart_terminated :
    (w : Stored)
    → lookup w.channel.name w.store.database.channels ≡ some w.channel.channel_id
    → decode_rows (of_channel w.channel.channel_id w.store.database.channel_permissions) ≡ none
    → ((restart w).1 ≡ true) × ((restart w).0.permissions ≡ new)
unfolding started set_channel_id fetch_all_permissions
restart_terminated w named unread =
    rw (restart_known w named, started, fetch_all_permissions, unread) (refl, refl)

module _ (irc : IrcLibrary) (show_time : DateTime → Text) where
  founding_join :
      (c : Channel) (msg : ChannelJoin)
      → can_join (get_user_permissions c (to_host_mask msg.connection)) ≡ true
      → HostMaskMap.is_empty c.permissions ≡ true
      → let (c', sent, result) = handle_join irc show_time c msg in
        (c'.name ≡ c.name)
        × (c'.channel_id ≡ c.channel_id)
        × (events_of sent
            ≡ channel_joined c.channel_id msg.connection.user_id
              ∷ set_user_channel_permissions c.channel_id
                  (username_mask msg.connection.user)
                  founder
              ∷ [])
  unfolding handle_join
  founding_join c msg y empty =
      let conn : InitiatedConnection = msg.connection in
      let c' : Channel = record c {
        permissions = HostMaskMap.insert c.permissions (username_mask conn.user) founder;
        clients = insert msg.client conn c.clients;
      } in
      let join = from_prefix (to_nick conn) (Command.join c.name none none) in
      let mode = mode_message conn c.name (into_mode founder true conn.nick) in
      let told = announce_joins join mode (keys c'.clients) in
      let quiet =
        events_of-append_none told (welcome irc show_time c' msg)
          (events_of-announce_joins join mode (keys c'.clients))
          (events_of-welcome irc show_time c' msg) in
      rw (handle_join, y, empty) (refl, refl, rw quiet refl)

  -- A user whose name has a star before its end, or is empty, and has no `@`, and who founds a
  -- channel of the database, makes it unusable: when the channel is started anew, the query for its
  -- permissions fails, and the channel is terminated without any.
  pub bad_name_terminates :
      (w w' : Stored) (now : DateTime) (msg : ChannelJoin)
      → lookup w.channel.name w.store.database.channels ≡ some w.channel.channel_id
      → HostMaskMap.is_empty w.channel.permissions ≡ true
      → can_join (get_user_permissions w.channel (to_host_mask msg.connection)) ≡ true
      → is_section msg.connection.user ≡ false
      → contains b'@' msg.connection.user ≡ false
      → stored_step irc show_time w (now, own (joining msg)) ≡ some w'
      → ((restart w').1 ≡ true) × ((restart w').0.permissions ≡ new)
  unfolding stored_step step persist_events persist_event persist_joined persist_permission started
      set_channel_id fetch_all_permissions
  bad_name_terminates w w' now msg named empty y bad no_at ran =
      let (same_name, same_id, sent) = founding_join w.channel msg y empty in
      let left = Option.some_inj.0 (
        rw (stored_step, step, sent, persist_events, persist_event, persist_events, persist_event)
          at ran) in
      let id = w.channel.channel_id in
      let unread =
        decode_rows-upsert id (username_mask msg.connection.user) founder
          w.store.database.channel_permissions invalid_username
          (username_mask_unreadable msg.connection.user bad no_at) in
      rw (← left) (restart_terminated _ (rw (same_name, same_id) named) (rw same_id unread))
