-- ===== src/Persistence/Overflow.antt =====
-- How far the clock of src/persistence.rs, an `i64`, can run.
use titanirc.Base.{
  ◌+◌, ◌≤◌, ◌<◌, ◌≡◌, inl, inr, some, List, [], ◌∷◌, arith, All, Ensures, length, Option-cases,
  Bool-cases,
}
use mathlib.Core.Option
use titanirc.Connection.{DateTime}
use titanirc.Messages.{
  Event, channel_joined, channel_parted, set_user_channel_permissions, channel_message,
  private_message, server_ban, server_remove_ban,
}
use titanirc.Persistence.{
  Persistence, monotonically_increasing_id, persist_joined, persist_parted, persist_permission,
  persist_channel_message, persist_private_message,
}
use titanirc.Persistence.Upkeep.{i64_bound, is_refused, persist_ban, persist_remove_ban}
use titanirc.Persistence.Mailbox.{persist_event, persist_run}

id_bounded :
    (now b : DateTime) (p : Persistence)
    → now ≤ b
    → p.last_seen_clock ≤ b
    → monotonically_increasing_id now p ≤ b + 1
unfolding monotonically_increasing_id
id_bounded now b p h k = ground (arith, h, k)

event_bounded :
    (now b : DateTime) (p : Persistence) (e : Event)
    → now ≤ b
    → p.last_seen_clock ≤ b
    → Ensures (λ q. q.last_seen_clock ≤ b + 1) (persist_event now p e)
unfolding persist_event persist_joined persist_parted persist_permission persist_channel_message
    persist_private_message persist_ban persist_remove_ban
event_bounded now b p (channel_message c s m r k) h l = id_bounded now b p h l
event_bounded now b p (private_message s r m k) h l = id_bounded now b p h l
event_bounded now b p (channel_joined c u) h l = omega (arith, l)
event_bounded now b p (channel_parted c u) h l = omega (arith, l)
event_bounded now b p (set_user_channel_permissions c m q) h l = omega (arith, l)
event_bounded now b p (server_ban m r s c x) h l =
    elim (Bool-cases (
      is_refused (record { mask = m; requester = r; reason = s; created = c; expires = x })
        p.database)) [ inl e ↦ rw e tt | inr e ↦ rw e (omega (arith, l)) ]
event_bounded now b p (server_remove_ban m) h l = omega (arith, l)

All-later :
    (b : DateTime) (es : List (DateTime × Event))
    → All (λ e. e.0 ≤ b) es
    → All (λ e. e.0 ≤ b + 1) es
All-later b [] h = tt
All-later b (e ∷ es) h = (omega (arith, h.0), All-later b es h.1)

run_bounded :
    (es : List (DateTime × Event)) (b : DateTime) (p p' : Persistence)
    → p.last_seen_clock ≤ b
    → All (λ e. e.0 ≤ b) es
    → persist_run p es ≡ some p'
    → p'.last_seen_clock ≤ b + length es
unfolding persist_run
run_bounded [] b p p' h t ran = rw (← Option.some_inj.0 ran) (omega (arith, h))
run_bounded ((now, e) ∷ es) b p p' h t ran = elim (Option-cases (persist_event now p e)) [
  | inl n ↦ absurd (cc (rw (persist_run, n) at ran))
  | inr (q, s) ↦
      let here : q.last_seen_clock ≤ b + 1 = rw s at (event_bounded now b p e t.0 h) in
      let later =
        run_bounded es (b + 1) q p' here (All-later b es t.1) (rw (persist_run, s) at ran) in
      omega (arith, later)
]

-- Where the clock and the times of the events stand as far below the largest `i64` as there are
-- events, the clock does not overflow, in whatever order the times come.
pub clock_fits :
    (es : List (DateTime × Event)) (b : DateTime) (p p' : Persistence)
    → p.last_seen_clock ≤ b
    → All (λ e. e.0 ≤ b) es
    → b + length es < i64_bound
    → persist_run p es ≡ some p'
    → p'.last_seen_clock < i64_bound
clock_fits es b p p' h t room ran = omega (arith, run_bounded es b p p' h t ran, room)
