-- ===== src/Permission/Laws.antt =====
-- The order of the permissions of src/channel/permissions.rs, and who may set what.
use titanirc.Base.{
  ℕ, ◌≤◌, ◌<◌, ◌≡◌, refl, ◌↔◌, inl, true, false, none, some, List, [], ◌∷◌, arith, PartialEq, Has,
  All,
}
use Prim.Native.Nat.{Ordering}
use mathlib.Core.Path.{subst}
use titanirc.Irc.{ChannelMode}
use titanirc.Permission.{
  Permission, ban, normal, voice, half_operator, operator, founder, permission_beq, as_i16,
  compare_ℤ, cmp, max_of, max, try_from, into_channel_mode, can_chatter, can_join, can_set_topic,
  can_kick, can_set_permission,
}

-- The rank of a permission, from the bottom.
abbrev pub rank : Permission → ℕ
rank ban = 0
rank normal = 1
rank voice = 2
rank half_operator = 3
rank operator = 4
rank founder = 5

pub permission_beq_iff : (p q : Permission) → (permission_beq p q ≡ true) ↔ (p ≡ q)
permission_beq_iff p q = ground arith

instance abbrev pub permission_eq : PartialEq Permission
permission_eq = record { beq = permission_beq; agrees = permission_beq_iff }

-- `cmp` is the order of the discriminants, and its two special cases change nothing.
cmp-eq-compare : (p q : Permission) → cmp p q ≡ compare_ℤ (as_i16 p) (as_i16 q)
unfolding cmp
cmp-eq-compare p q = ground arith

pub cmp-rank : (p q : Permission) → (cmp p q ≡ Ordering.gt) ↔ (rank q < rank p)
unfolding cmp
cmp-rank p q = ground arith

abbrev Below : Permission → List Permission → Type 0
Below p qs = All (λ q. rank q ≤ rank p) qs

max_of-Has : (best : Permission) (ps : List Permission) → Has (max_of best ps) (best ∷ ps)
unfolding max_of cmp
max_of-Has best [] = inl refl
max_of-Has best (p ∷ ps) = ground (arith, max_of-Has best ps, max_of-Has p ps)

rank-max_of :
    (best : Permission) (ps : List Permission)
    → (rank best ≤ rank (max_of best ps)) × Below (max_of best ps) ps
unfolding max_of
rank-max_of best [] = (omega arith, tt)
rank-max_of best (p ∷ ps) = ground (arith, cmp-rank best p, rank-max_of best ps, rank-max_of p ps)

-- The maximum is one of the permissions, and none ranks above it.
pub max-eq-some :
    (ps : List Permission) (p : Permission)
    → max ps ≡ some p
    → Has p ps × All (λ q. rank q ≤ rank p) ps
unfolding max
max-eq-some [] p e = cc
max-eq-some (q ∷ qs) p e =
    let best = max_of-Has q qs in
    let (first, rest) = rank-max_of q qs in
    let same : max_of q qs ≡ p = ground arith in
    subst (λ (r : Permission). Has r (q ∷ qs) × All (λ t. rank t ≤ rank r) (q ∷ qs)) same
      (best, (first, rest))

pub max-eq-none : (ps : List Permission) → (max ps ≡ none) → ps ≡ []
unfolding max
max-eq-none [] e = refl
max-eq-none (q ∷ qs) e = cc

-- A mode that sets a permission is the mode that the permission is announced by, and only
-- `Normal` has none.
pub try_from-into_channel_mode :
    (p : Permission) (m : ChannelMode) → (into_channel_mode p ≡ some m) ↔ (try_from m ≡ some p)
unfolding into_channel_mode try_from
try_from-into_channel_mode p m = ground arith

-- A permission may be set exactly by a half-operator or above who ranks strictly above both the
-- old and the new permission.
pub can_set_permission_iff :
    (self new old : Permission)
    → (can_set_permission self new old ≡ true)
      ↔ ((rank half_operator ≤ rank self) × (rank new < rank self) × (rank old < rank self))
unfolding can_set_permission
can_set_permission_iff self new old = ground arith

-- The right to kick, and to set the topic, is that of a half-operator or above.
pub can_kick_iff :
    (p : Permission)
    → ((can_kick p ≡ true) ↔ (rank half_operator ≤ rank p)) × (can_set_topic p ≡ can_kick p)
unfolding can_kick can_set_topic
can_kick_iff p = ground arith

pub can_join_iff :
    (p : Permission) → ((can_join p ≡ false) ↔ (p ≡ ban)) × (can_chatter p ≡ can_join p)
unfolding can_join can_chatter
can_join_iff p = ground arith

pub rank_inj : (p q : Permission) → rank p ≡ rank q → p ≡ q
rank_inj p q e = ground arith
