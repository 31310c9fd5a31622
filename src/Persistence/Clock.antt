-- ===== src/Persistence/Clock.antt =====
-- The clock and the owners of nicks in src/persistence.rs.
use titanirc.Base.{
  ◌≤◌, ◌<◌, ◌≡◌, refl, ap, ◌∙◌, inl, inr, Bool, true, some, arith, lookup, lookup-insert_self,
  nat_beq_iff, nat_eq, text_eq, Text, Option-cases, ◌==◌,
}
use titanirc.Connection.{DateTime, UserId}
use titanirc.Persistence.{Persistence, Database, monotonically_increasing_id, reserve_nick}

-- An identifier is above every earlier one, and not before the clock.
pub monotonically_increasing_id_increases :
    (now : DateTime) (p : Persistence)
    → (p.last_seen_clock < monotonically_increasing_id now p)
      × (now ≤ monotonically_increasing_id now p)
unfolding monotonically_increasing_id
monotonically_increasing_id_increases now p = ground arith

reserve_owned :
    (v o : UserId) (nick : Text) (d : Database)
    → lookup nick d.user_nicks ≡ some o
    → reserve_nick v nick d ≡ (d, o == v)
unfolding reserve_nick
reserve_owned v o nick d e = rw (reserve_nick, e) refl

reserve_owner :
    (u : UserId) (nick : Text) (d : Database)
    → (reserve_nick u nick d).1 ≡ true
    → lookup nick (reserve_nick u nick d).0.user_nicks ≡ some u
unfolding reserve_nick
reserve_owner u nick d h = elim (Option-cases (lookup nick d.user_nicks)) [
  | inl e ↦ rw (reserve_nick, e) (lookup-insert_self nick u d.user_nicks)
  | inr (o, e) ↦
      let same = (nat_beq_iff o u).0 (rw (reserve_nick, e) at h) in
      rw (reserve_nick, e) (e ∙ ap (λ (x : UserId). some x) same)
]

-- A nick goes to the first user that reserves it: a later reservation succeeds exactly for the
-- owner, and leaves the owner as it is.
reserve_nick_first :
    (u v : UserId) (nick : Text) (d : Database)
    → (reserve_nick u nick d).1 ≡ true
    → ((reserve_nick v nick (reserve_nick u nick d).0).1 ≡ (u == v))
      × (lookup nick (reserve_nick v nick (reserve_nick u nick d).0).0.user_nicks ≡ some u)
reserve_nick_first u v nick d h =
    let owned = reserve_owner u nick d h in
    let again = reserve_owned v u nick (reserve_nick u nick d).0 owned in
    (
      ap (λ (r : Database × Bool). r.1) again,
      ap (λ (r : Database × Bool). lookup nick r.0.user_nicks) again ∙ owned,
    )
