-- ===== src/Channel/Store/Restart.antt =====
-- The channel of src/channel.rs that is started anew on the database of an earlier one.
use titanirc.Base.{
  ◌≡◌, refl, ◌∙◌, inl, inr, false, some, List, [], ◌∷◌, map, lookup, text_eq, nat_eq, Text, All,
  Option-cases, ◌==◌,
}
use mathlib.Core.Option
use titanirc.Irc.{IrcLibrary}
use titanirc.HostMask.{HostMask}
use titanirc.HostMask.RoundTrip.{IsValid}
use titanirc.HostMaskMap.{HostMaskMap, new}
use titanirc.HostMaskMap.Table.{host_mask_eq, tabulate_all, new-Represents, perform_all-Represents}
use titanirc.Permission.{Permission}
use titanirc.Connection.{DateTime}
use titanirc.Messages.{
  ChannelId, Event, channel_joined, channel_parted, set_user_channel_permissions, channel_message,
  private_message, server_ban, server_remove_ban,
}
use titanirc.Persistence.{Persistence, of_channel}
use titanirc.Persistence.Mailbox.{persist_event, persist_events}
use titanirc.Channel.{get_user_permissions}
use titanirc.Channel.Mailbox.{Request, step}
use titanirc.Channel.Store.{Stored, Turn, own, other, events_of, stored_step, stored_run, restart}
use titanirc.Channel.Store.Rows.{HasValidMask, play, IsKept, event-IsKept, events-IsKept}
use titanirc.Channel.Store.Turns.{AsksValid, step-IsWritten}
use titanirc.Channel.Store.Loading.{
  puts, insert_all-puts, puts-valid, lookup-tabulated, same_permissions, orelse-none,
  restart-loaded,
}

-- The channel and its rows say the same.
abbrev pub IsStored : Stored → Type 0
IsStored w = IsKept w.channel.name w.channel.channel_id w.channel.permissions w.store

-- What another actor writes to the database is about other channels.
abbrev pub IsForeign : ChannelId → Event → Type 0
IsForeign id (set_user_channel_permissions channel m p) = IsValid m × ((channel == id) ≡ false)
IsForeign id _ = Unit

abbrev pub IsProper : ChannelId → Turn → Type 0
IsProper id (own r) = AsksValid r
IsProper id (other e) = IsForeign id e

foreign_plays :
    (id : ChannelId) (map : HostMaskMap Permission) (e : Event)
    → IsForeign id e
    → HasValidMask e × (play id map e ≡ map)
foreign_plays id map (set_user_channel_permissions channel m p) f = (f.0, rw f.1 refl)
foreign_plays id map (channel_joined c u) f = (tt, refl)
foreign_plays id map (channel_parted c u) f = (tt, refl)
foreign_plays id map (channel_message c s m r k) f = (tt, refl)
foreign_plays id map (private_message s r m k) f = (tt, refl)
foreign_plays id map (server_ban m r s c e) f = (tt, refl)
foreign_plays id map (server_remove_ban m) f = (tt, refl)

restart_keeps :
    (w : Stored) (mask : HostMask)
    → IsStored w
    → ((restart w).1 ≡ false)
      × ((restart w).0.channel_id ≡ w.channel.channel_id)
      × (get_user_permissions (restart w).0 mask ≡ get_user_permissions w.channel mask)
restart_keeps w mask k =
    let rows = of_channel w.channel.channel_id w.store.database.channel_permissions in
    let (lives, same_id, loaded) = restart-loaded w k.named k.mirrors.valid in
    let represented =
      perform_all-Represents (puts rows) new [] (puts-valid rows k.mirrors.valid) new-Represents in
    (
      lives,
      same_id,
      same_permissions (restart w).0 w.channel (tabulate_all [] (puts rows)) rows mask
          (rw (loaded, insert_all-puts rows new) represented) k.mirrors.represents
          (λ m. lookup-tabulated rows [] m k.mirrors.unique ∙ orelse-none (lookup m rows)),
    )

module _ (irc : IrcLibrary) (show_time : DateTime → Text) where
  own-IsStored :
      (w : Stored) (now : DateTime) (r : Request) (p : Persistence)
      → AsksValid r
      → IsStored w
      → persist_events now w.store (events_of (step irc show_time w.channel r).1) ≡ some p
      → IsStored (record { channel = (step irc show_time w.channel r).0; store = p })
        × ((step irc show_time w.channel r).0.channel_id ≡ w.channel.channel_id)
  own-IsStored w now r p v k ran =
      let s = step-IsWritten irc show_time w.channel r v in
      let k' =
        events-IsKept w.channel.name w.channel.channel_id now
          (events_of (step irc show_time w.channel r).1) w.channel.permissions w.store p s.valid ran
          k in
      (rw (s.same_name, s.same_id, s.played) k', s.same_id)

  step-IsStored :
      (w w' : Stored) (now : DateTime) (t : Turn)
      → IsProper w.channel.channel_id t
      → IsStored w
      → stored_step irc show_time w (now, t) ≡ some w'
      → IsStored w' × (w'.channel.channel_id ≡ w.channel.channel_id)
  unfolding stored_step
  step-IsStored w w' now (own r) v k ran =
      elim (Option-cases
        (persist_events now w.store (events_of (step irc show_time w.channel r).1))) [
          | inl e ↦ absurd (cc (rw (stored_step, e) at ran))
          | inr (p, e) ↦
              let (k', same) = own-IsStored w now r p v k e in
              let left = Option.some_inj.0 (rw (stored_step, e) at ran) in rw (← left) (k', same)
        ]
  step-IsStored w w' now (other e) v k ran =
      let (valid, same) = foreign_plays w.channel.channel_id w.channel.permissions e v in
      elim (Option-cases (persist_event now w.store e)) [
        | inl f ↦ absurd (cc (rw (stored_step, f) at ran))
        | inr (p, f) ↦
            let k' =
              event-IsKept w.channel.name w.channel.channel_id w.channel.permissions now w.store p e
                valid f k in
            let left = Option.some_inj.0 (rw (stored_step, f) at ran) in
            rw (← left) (rw same at k', refl)
      ]

  run-IsStored :
      (w w' : Stored) (ts : List (DateTime × Turn))
      → All (λ t. IsProper w.channel.channel_id t.1) ts
      → IsStored w
      → stored_run irc show_time w ts ≡ some w'
      → IsStored w'
  unfolding stored_run
  run-IsStored w w' [] v k ran = rw (← Option.some_inj.0 ran) k
  run-IsStored w w' ((now, t) ∷ ts) v k ran =
      elim (Option-cases (stored_step irc show_time w (now, t))) [
        | inl e ↦ absurd (cc (rw (stored_run, e) at ran))
        | inr (x, e) ↦
            let (k', same) = step-IsStored w x now t v.0 k e in
            run-IsStored x w' ts (rw same v.1) k' (rw (stored_run, e) at ran)
      ]

  -- Let a channel, whose permissions are those that the database keeps of it, handle a sequence of
  -- messages without a panic of the database, where every mask that a mode is set for, and the mask
  -- `*!user@*` of every joining user's name, is a valid one, while other actors write to the
  -- database permissions of other channels only, with valid masks. A channel that is then started
  -- anew under its name is not terminated, has its id and gives every user the same permission.
  pub restart_keeps_permissions :
      (w w' : Stored) (ts : List (DateTime × Turn)) (mask : HostMask)
      → IsStored w
      → All (λ t. IsProper w.channel.channel_id t.1) ts
      → stored_run irc show_time w ts ≡ some w'
      → ((restart w').1 ≡ false)
        × ((restart w').0.channel_id ≡ w'.channel.channel_id)
        × (get_user_permissions (restart w').0 mask ≡ get_user_permissions w'.channel mask)
  restart_keeps_permissions w w' ts mask k proper ran =
      restart_keeps w' mask (run-IsStored w w' ts proper k ran)
