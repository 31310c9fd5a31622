-- ===== src/Permission.antt =====
-- `enum Permission` of src/channel/permissions.rs. Its discriminants are `i16`s; they are written
-- here as integers, for their comparisons.
pub mod Laws
use titanirc.Base.{
  ℕ, zero, suc, ◌+◌, ◌-◌, Bool, true, false, not, ◌&&◌, Option, none, some, if◌then◌else◌, ltb, leb,
  List, [], ◌∷◌, Text, text, PartialEq, ◌≡◌, refl, ◌↔◌, arith,
}
use Prim.Native.Nat.{compare, Ordering}
use titanirc.Irc.{ChannelMode, Mode, plus, minus}

pub data Permission : Type 0 where
  ban normal voice half_operator operator founder : Permission

-- `negsuc n` is -(n + 1).
pub data ℤ : Type 0 where
  pos : ℕ → ℤ
  negsuc : ℕ → ℤ

-- The order of `i16`.
abbrev pub compare_ℤ : ℤ → ℤ → Ordering
compare_ℤ (pos a) (pos b) = compare a b
compare_ℤ (pos a) (negsuc b) = Ordering.gt
compare_ℤ (negsuc a) (pos b) = Ordering.lt
compare_ℤ (negsuc a) (negsuc b) = compare b a

abbrev pub ltb_ℤ : ℤ → ℤ → Bool
ltb_ℤ a b = elim (compare_ℤ a b) [ Ordering.lt ↦ true | _ ↦ false ]

abbrev pub leb_ℤ : ℤ → ℤ → Bool
leb_ℤ a b = elim (compare_ℤ a b) [ Ordering.gt ↦ false | _ ↦ true ]

abbrev pub i16_max : ℕ
i16_max = 32767

-- `self as i16`
abbrev pub as_i16 : Permission → ℤ
as_i16 ban = negsuc 0
as_i16 normal = pos 0
as_i16 voice = pos 1
as_i16 half_operator = pos (i16_max - 2)
as_i16 operator = pos (i16_max - 1)
as_i16 founder = pos i16_max

-- The derived `PartialEq`.
abbrev pub permission_beq : Permission → Permission → Bool
permission_beq ban ban = true
permission_beq normal normal = true
permission_beq voice voice = true
permission_beq half_operator half_operator = true
permission_beq operator operator = true
permission_beq founder founder = true
permission_beq _ _ = false

abbrev is_ban_value : ℤ → Bool
is_ban_value (negsuc zero) = true
is_ban_value _ = false

abbrev is_normal_value : ℤ → Bool
is_normal_value (pos zero) = true
is_normal_value _ = false

-- `Ord::cmp`, with its two cases for -1 and 0.
unfoldable pub cmp : Permission → Permission → Ordering
cmp a b =
    if is_ban_value (as_i16 a) && is_normal_value (as_i16 b)
    then Ordering.lt
    else if is_normal_value (as_i16 a) && is_ban_value (as_i16 b)
    then Ordering.gt
    else compare_ℤ (as_i16 a) (as_i16 b)

-- `Iterator::max` over `cmp`: of equal values the last.
unfoldable pub max_of : Permission → List Permission → Permission
max_of best [] = best
max_of best (p ∷ ps) = max_of (elim (cmp best p) [ Ordering.gt ↦ best | _ ↦ p ]) ps

unfoldable pub max : List Permission → Option Permission
unfolding max_of
max [] = none
max (p ∷ ps) = some (max_of p ps)

-- `TryFrom<ChannelMode>`
unfoldable pub try_from : ChannelMode → Option Permission
try_from ChannelMode.ban = some ban
try_from ChannelMode.voice = some voice
try_from ChannelMode.halfop = some half_operator
try_from ChannelMode.oper = some operator
try_from ChannelMode.founder = some founder
try_from (ChannelMode.other n) = none

-- `From<Permission> for Option<ChannelMode>`
unfoldable pub into_channel_mode : Permission → Option ChannelMode
into_channel_mode ban = some ChannelMode.ban
into_channel_mode normal = none
into_channel_mode voice = some ChannelMode.voice
into_channel_mode half_operator = some ChannelMode.halfop
into_channel_mode operator = some ChannelMode.oper
into_channel_mode founder = some ChannelMode.founder

unfoldable pub into_mode : Permission → Bool → Text → Option Mode
unfolding into_channel_mode
into_mode p add mask = elim (into_channel_mode p) [
  | none ↦ none
  | some v ↦ some (if add then plus v (some mask) else minus v (some mask))
]

unfoldable pub into_prefix : Permission → Text
into_prefix ban = []
into_prefix normal = []
into_prefix voice = text "+"
into_prefix half_operator = text "%"
into_prefix operator = text "@"
into_prefix founder = text "~"

-- `SUPPORTED_PREFIXES`
abbrev pub supported_prefixes : Text
supported_prefixes = text "(qohv)~@%+"

unfoldable pub can_chatter : Permission → Bool
can_chatter p = not (permission_beq p ban)

unfoldable pub can_join : Permission → Bool
can_join p = not (permission_beq p ban)

unfoldable pub can_set_topic : Permission → Bool
can_set_topic p = leb_ℤ (as_i16 half_operator) (as_i16 p)

unfoldable pub can_kick : Permission → Bool
can_kick p = leb_ℤ (as_i16 half_operator) (as_i16 p)

-- `can_set_permission(self, new, old)`
unfoldable pub can_set_permission : Permission → Permission → Permission → Bool
can_set_permission self new old =
    leb_ℤ (as_i16 half_operator) (as_i16 self)
    && (ltb_ℤ (as_i16 new) (as_i16 self) && ltb_ℤ (as_i16 old) (as_i16 self))
