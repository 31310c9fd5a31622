-- ===== src/Channel/Store/Loading.antt =====
-- What the channel of src/channel.rs finds in the database when it starts.
use titanirc.Base.{
  ◌≡◌, refl, ap, sym, ◌∙◌, ◌↔◌, inl, inr, true, false, Option, none, some, List, [], ◌∷◌, ◌++◌, map,
  arith, if◌then◌else◌, lookup, lookup-insert, HashMap, IsUnique, text_eq, nat_eq, Text, All, Has,
  Bool-cases, Option-cases, ◌==◌,
}
use titanirc.Base
use titanirc.HostMask.{HostMask, encode, decode, from_str}
use titanirc.HostMask.RoundTrip.{IsValid, try_from-to_string}
use titanirc.HostMaskMap
use titanirc.HostMaskMap.{HostMaskMap, get, new, insert_all, from_iter}
use titanirc.HostMaskMap.Table.{
  host_mask_eq, Op, put, perform_all, tabulate_all, mask_of, Represents, represented-finds,
}
use titanirc.Permission.{Permission}
use titanirc.Messages.{ChannelId}
use titanirc.Persistence.{Database, channel_created, fetch_all_permissions, decode_rows, of_channel}
use titanirc.Channel.{Channel, get_user_permissions}
use titanirc.Channel.Access.{level-alike}
use titanirc.Channel.Handlers.{started, set_channel_id}
use titanirc.Channel.Mailbox.{new_channel}
use titanirc.Channel.Store.{Stored, restart}
use titanirc.Channel.Store.Rows.{HaveValidMasks}

-- The rows of a table as insertions.
abbrev pub puts : HashMap HostMask Permission → List (Op Permission)
puts [] = []
puts ((m, p) ∷ table) = put m p ∷ puts table

pub insert_all-puts :
    (table : HashMap HostMask Permission) (out : HostMaskMap Permission)
    → insert_all table out ≡ perform_all out (puts table)
unfolding insert_all
insert_all-puts [] out = refl
insert_all-puts ((m, p) ∷ table) out = insert_all-puts table (HostMaskMap.insert out m p)

pub puts-valid :
    (table : HashMap HostMask Permission)
    → HaveValidMasks table
    → All (λ op. IsValid (mask_of op)) (puts table)
puts-valid [] v = tt
puts-valid ((m, p) ∷ table) v = (v.0, puts-valid table v.1)

-- With distinct masks the order of the insertions does not matter.
abbrev pub orelse : Option Permission → Option Permission → Option Permission
orelse none o = o
orelse (some p) o = some p

pub orelse-none : (o : Option Permission) → orelse o none ≡ o
orelse-none none = refl
orelse-none (some p) = refl

pub lookup-tabulated :
    (table out : HashMap HostMask Permission) (m : HostMask)
    → IsUnique table
    → lookup m (tabulate_all out (puts table)) ≡ orelse (lookup m table) (lookup m out)
lookup-tabulated [] out m u = refl
lookup-tabulated ((n, p) ∷ table) out m u =
    let later = lookup-tabulated table (Base.insert n p out) m u.1 in
    elim (Bool-cases (n == m)) [
      | inl e ↦
          let missing : lookup m table ≡ none = rw (← (host_mask_eq.agrees n m).0 e) u.0 in
          later ∙ rw (lookup-insert n m p out, e, missing) refl
      | inr e ↦ later ∙ rw (lookup-insert n m p out, e) refl
    ]

-- Tries of the same table give everyone the same permission.
pub same_permissions :
    (c d : Channel) (t u : HashMap HostMask Permission) (mask : HostMask)
    → Represents c.permissions t
    → Represents d.permissions u
    → ((m : HostMask) → lookup m t ≡ lookup m u)
    → get_user_permissions c mask ≡ get_user_permissions d mask
unfolding get_user_permissions
same_permissions c d t u mask rc rd same =
    let found_c = λ (p : Permission). represented-finds c.permissions t mask p rc in
    let found_d = λ (p : Permission). represented-finds d.permissions u mask p rd in
    level-alike (get c.permissions mask) (get d.permissions mask) (λ p. (
      λ h. let (m, e, a) = (found_c p).0 h in (found_d p).1 (m, sym (same m) ∙ e, a),
      λ h. let (m, e, a) = (found_d p).0 h in (found_c p).1 (m, same m ∙ e, a),
    ))

-- Rows of valid masks are read as they were written.
decode_rows-valid :
    (rows : List (HostMask × Permission)) → HaveValidMasks rows → decode_rows rows ≡ some rows
unfolding decode_rows decode encode from_str
decode_rows-valid [] v = refl
decode_rows-valid ((m, p) ∷ rows) v =
    rw (decode_rows, decode, from_str, encode, try_from-to_string m v.0, decode_rows-valid rows v.1)
      refl

-- A channel that starts on a database with its row finds its id, and then what the query says.
channel_created_known :
    (name : Text) (d : Database) (id : ChannelId)
    → lookup name d.channels ≡ some id
    → channel_created name d ≡ (d, id)
unfolding channel_created
channel_created_known name d id e = rw (channel_created, e) refl

pub restart_known :
    (w : Stored)
    → lookup w.channel.name w.store.database.channels ≡ some w.channel.channel_id
    → restart w
      ≡ started
          (new_channel w.channel.name)
          (some w.channel.channel_id)
          (λ id. fetch_all_permissions id w.store.database)
unfolding restart
restart_known w e =
    rw (restart, channel_created_known w.channel.name w.store.database w.channel.channel_id e) refl

pub restart-loaded :
    (w : Stored)
    → lookup w.channel.name w.store.database.channels ≡ some w.channel.channel_id
    → HaveValidMasks (of_channel w.channel.channel_id w.store.database.channel_permissions)
    → ((restart w).1 ≡ false)
      × ((restart w).0.channel_id ≡ w.channel.channel_id)
      × ((restart w).0.permissions
          ≡ insert_all (of_channel w.channel.channel_id w.store.database.channel_permissions) new)
unfolding started set_channel_id fetch_all_permissions from_iter
restart-loaded w e v =
    let rows = of_channel w.channel.channel_id w.store.database.channel_permissions in
    rw (restart_known w e, started, fetch_all_permissions, decode_rows-valid rows v)
      (refl, refl, refl)
