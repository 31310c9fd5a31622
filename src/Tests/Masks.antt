-- ===== src/Tests/Masks.antt =====
-- The masks of src/host_mask.rs and the permissions of src/channel/permissions.rs on concrete data.
use titanirc.Base.{◌≡◌, ◌≤◌, refl, some, [], ◌∷◌, text, All, Has}
use titanirc.HostMask.{HostMask, to_string, try_from, ok}
use titanirc.HostMask.RoundTrip.{IsValid, try_from-to_string}
use titanirc.HostMaskMap.{HostMaskMap, nick, weight, insert, insert_fuel, done, new}
use titanirc.HostMaskMap.WellFormed.{new-IsWellFormed}
use titanirc.HostMaskMap.Insertion.{insert_done}
use titanirc.HostMaskMap.Globs.{IsRoot, new-IsRoot, insert-IsRoot}
use titanirc.Permission.{Permission, ban, normal, operator, max, max_of, cmp}
use titanirc.Permission.Laws.{rank, max-eq-some}
use titanirc.Tests.Samples.{bob_mask}

abbrev bob_from_c : HostMask
bob_from_c = record { nick = text "bo"; username = text "bo"; host = text "c" }

abbrev sample_map : HostMaskMap Permission
sample_map = insert new bob_mask operator

sample_map-IsRoot : IsRoot sample_map
sample_map-IsRoot = insert-IsRoot new bob_mask operator new-IsRoot

bob_mask-IsValid : IsValid bob_mask
bob_mask-IsValid = record {
  nick_section = refl;
  username_section = refl;
  host_section = refl;
  no_bang = refl;
  no_at = refl;
}

try_from-to_string_example : try_from (to_string bob_mask) ≡ ok bob_mask
try_from-to_string_example = try_from-to_string bob_mask bob_mask-IsValid

parsed_bob : try_from (text "bo!*@*") ≡ ok bob_mask
unfolding try_from
parsed_bob = refl

insert_done_example :
    insert_fuel (weight nick bob_mask) (new {T = Permission}) bob_mask operator ≡ done sample_map
insert_done_example = insert_done new bob_mask operator (new-IsWellFormed Permission)

most : max (ban ∷ operator ∷ normal ∷ []) ≡ some operator
unfolding max max_of cmp
most = refl

max-eq-some_example :
    Has operator (ban ∷ operator ∷ normal ∷ [])
    × All (λ q. rank q ≤ rank operator) (ban ∷ operator ∷ normal ∷ [])
max-eq-some_example = max-eq-some (ban ∷ operator ∷ normal ∷ []) operator most
