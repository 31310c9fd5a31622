-- ===== src/Client/Liveness.antt =====
-- The pings of src/client.rs: a client that does not answer them is stopped.
use titanirc.Base.{
  ◌+◌, ◌-◌, ◌≤◌, ℕ, zero, suc, ◌≡◌, refl, inl, inr, Bool, true, false, Option, none, some, List, [],
  ◌∷◌, ◌++◌, arith, leb, Has, All, Has-append_left, Has-append_right, Bool-cases,
}
use titanirc.Irc.{Message, Command}
use titanirc.Connection.{DateTime}
use titanirc.Messages.{ClientAddr}
use titanirc.Client.{Client, Sent, stop}
use titanirc.Client.Handlers.{handle_ping_interval}
use titanirc.Client.Stream.{Surroundings, part_from, handle_client_command, is_spoofed, handle_item}

-- What happens to a client, with its time in seconds: an item of the stream, or the interval of
-- the pings.
pub data Moment : Type 0 where
  received : DateTime → Option Message → Moment
  tick : DateTime → Moment

-- The times of the ticks, and the interval of `run_interval`.
abbrev pub ticks : List Moment → List DateTime
ticks [] = []
ticks (received t item ∷ ms) = ticks ms
ticks (tick t ∷ ms) = t ∷ ticks ms

abbrev pub every_30 : DateTime → ℕ → List DateTime
every_30 start zero = []
every_30 start (suc n) = start ∷ every_30 (start + 30) n

abbrev pub is_pong : Command → Bool
is_pong (Command.pong _ _) = true
is_pong _ = false

abbrev pub IsNoPong : Moment → Type 0
IsNoPong (received t (some m)) = is_pong m.command ≡ false
IsNoPong (received t none) = Unit
IsNoPong (tick t) = Unit

module _ (s : Surroundings) (me : ClientAddr) where
  unfoldable pub live : Client → Moment → Client × List Sent
  live c (received now item) = handle_item s me now c item
  live c (tick now) = handle_ping_interval now c

  -- All that the client sends.
  unfoldable pub live_all : Client → List Moment → List Sent
  live_all c [] = []
  live_all c (m ∷ ms) = let (c', sent) = live c m in sent ++ live_all c' ms

  part_active :
      (now : DateTime) (c : Client) (channel : _) (message : _)
      → (part_from s me now c channel message).0.last_active ≡ c.last_active
  part_active now c channel message = ground arith

  command_active :
      (now : DateTime) (c : Client) (command : Command)
      → is_pong command ≡ false
      → (handle_client_command s me now c command).0.last_active ≡ c.last_active
  unfolding handle_client_command
  command_active now c (Command.quit message) h = refl
  command_active now c (Command.part channel message) h = part_active now c channel message
  command_active now c (Command.pong _ _) h = absurd (cc h)
  command_active now c command h = refl

  live_active : (c : Client) (m : Moment) → IsNoPong m → (live c m).0.last_active ≡ c.last_active
  unfolding live handle_item handle_ping_interval
  live_active c (received now none) h = refl
  live_active c (received now (some m)) h =
      elim (Bool-cases (is_spoofed s me now c (s.irc.source_nickname m))) [
        | inl spoofed ↦ rw spoofed refl
        | inr own ↦ rw own (command_active now c m.command h)
      ]
  live_active c (tick now) h = ground arith

  late_tick_stops :
      (c : Client) (now : DateTime) → 120 ≤ now - c.last_active → Has stop (live c (tick now)).1
  unfolding live handle_ping_interval
  late_tick_stops c now h =
      let late : leb 120 (now - c.last_active) ≡ true = ground arith in
      rw (handle_ping_interval, late) (inl refl)

  late_stops :
      (ms : List Moment) (c : Client) (t : DateTime)
      → All (λ m. IsNoPong m) ms
      → Has t (ticks ms)
      → 120 ≤ t - c.last_active
      → Has stop (live_all c ms)
  unfolding live_all
  late_stops [] c t silent h late = elim h [ ]
  late_stops (received now item ∷ ms) c t silent h late =
      let c' = (live c (received now item)).0 in
      Has-append_right stop (live c (received now item)).1 (live_all c' ms)
        (late_stops ms c' t silent.1 h (rw (live_active c (received now item) silent.0) late))
  late_stops (tick now ∷ ms) c t silent (inl e) late =
      Has-append_left stop (live c (tick now)).1 _ (late_tick_stops c now (rw e at late))
  late_stops (tick now ∷ ms) c t silent (inr h) late =
      let c' = (live c (tick now)).0 in
      Has-append_right stop (live c (tick now)).1 (live_all c' ms)
        (late_stops ms c' t silent.1 h (rw (live_active c (tick now) silent.0) late))

  -- A client that is pinged every 30 seconds and does not answer a ping is stopped within five
  -- pings, whatever else it sends.
  pub silent_client_stops :
      (ms : List Moment) (c : Client) (start : DateTime)
      → c.last_active ≤ start
      → All (λ m. IsNoPong m) ms
      → ticks ms ≡ every_30 start 5
      → Has stop (live_all c ms)
  silent_client_stops ms c start begun silent regular =
      late_stops ms c (start + 120) silent (rw regular (inr (inr (inr (inr (inl (omega arith)))))))
        (omega (arith, begun))
