-- ===== src/Proto/Laws.antt =====
-- What the raw commands of src/proto.rs carry.
use titanirc.Base.{
  ◌≡◌, refl, inl, inr, Option, none, some, List, [], ◌∷◌, Bool-cases, Text, text, text_eq, ◌==◌,
  is_empty, ltb, length,
}
use titanirc.HostMask
use titanirc.HostMask.{HostMask, to_string}
use titanirc.HostMask.RoundTrip.{IsValid, try_from-IsValid, try_from-to_string}
use titanirc.Messages.{Duration}
use titanirc.Proto.{
  LocalCommand, list_gline, remove_gline, gline, Result, ok, err, masked, parse_host_mask,
  is_removal, try_from, and_then, at, opt, required, truncate_first_character, drop_first, wrap_ok,
  parse_duration,
}

-- The masks of a command are ones that the parser of masks makes.
abbrev pub IsMasked : Result LocalCommand → Type 0
IsMasked (ok (gline m d r)) = IsValid m
IsMasked (ok (remove_gline m)) = IsValid m
IsMasked (ok list_gline) = Unit
IsMasked (err e) = Unit

masked_ok : (p : HostMask.Parsed) (m : HostMask) → masked p ≡ ok m → p ≡ HostMask.ok m
masked_ok (HostMask.err e) m h = cc
masked_ok (HostMask.ok n) m h = cc

masked-IsValid : (s : Text) (m : HostMask) → parse_host_mask s ≡ ok m → IsValid m
unfolding parse_host_mask
masked-IsValid s m e = try_from-IsValid s m (masked_ok (HostMask.try_from s) m e)

required-IsValid : (o : Option Text) (m : HostMask) → required parse_host_mask o ≡ ok m → IsValid m
required-IsValid none m e = absurd (cc e)
required-IsValid (some s) m e = masked-IsValid s m e

truncated-IsValid :
    (o : Option Text) (m : HostMask)
    → required (truncate_first_character parse_host_mask) o ≡ ok m
    → IsValid m
truncated-IsValid none m e = absurd (cc e)
truncated-IsValid (some s) m e = masked-IsValid (drop_first s) m e

removal-IsMasked :
    (r : Result HostMask)
    → ((m : HostMask) → r ≡ ok m → IsValid m)
    → IsMasked (and_then r (λ a. ok (remove_gline a)))
removal-IsMasked (err e) valid = tt
removal-IsMasked (ok m) valid = valid m refl

ban-IsMasked :
    (r : Result HostMask) (t : Result (Option Duration)) (u : Result (Option Text))
    → ((m : HostMask) → r ≡ ok m → IsValid m)
    → IsMasked (and_then r (λ a. and_then t (λ b. and_then u (λ c. ok (gline a b c)))))
ban-IsMasked (err e) t u valid = tt
ban-IsMasked (ok m) (err e) u valid = tt
ban-IsMasked (ok m) (ok d) (err e) valid = tt
ban-IsMasked (ok m) (ok d) (ok r) valid = valid m refl

module _ (humantime : Text → Option Duration) where
  -- A command that the parser accepts carries no mask but a valid one, whatever its arguments.
  pub local_command-IsMasked :
      (command : Text) (args : List Text) → IsMasked (try_from humantime command args)
  unfolding try_from
  local_command-IsMasked command args = elim (Bool-cases (command == text "GLINE")) [
    | inr other ↦ rw other tt
    | inl named ↦ rw named (elim (Bool-cases (is_empty args)) [
      | inl bare ↦ rw bare tt
      | inr given ↦ rw given (elim (Bool-cases (is_removal args)) [
        | inl removal ↦ rw removal (elim (Bool-cases (ltb 1 (length args))) [
          | inl long ↦ rw long tt
          | inr short ↦ rw short (
              removal-IsMasked (required (truncate_first_character parse_host_mask) (at 0 args))
                (λ m e. truncated-IsValid (at 0 args) m e))
        ])
        | inr ban ↦ rw ban (elim (Bool-cases (ltb 3 (length args))) [
          | inl long ↦ rw long tt
          | inr short ↦ rw short (
              ban-IsMasked (required parse_host_mask (at 0 args))
                (opt (parse_duration humantime) (at 1 args)) (opt (wrap_ok (λ s. s)) (at 2 args))
                (λ m e. required-IsValid (at 0 args) m e))
        ])
      ])
    ])
  ]

  -- A ban of a valid mask with a readable duration and a reason is read as that ban, and with a
  -- dash before the mask alone as its removal.
  gline_parses :
      (m : HostMask) (duration reason : Text) (d : Duration)
      → IsValid m
      → humantime duration ≡ some d
      → (try_from humantime (text "GLINE") (to_string m ∷ duration ∷ reason ∷ [])
          ≡ ok (gline m (some d) (some reason)))
        × (try_from humantime (text "GLINE") ((b'-' ∷ to_string m) ∷ []) ≡ ok (remove_gline m))
  unfolding try_from parse_host_mask
  gline_parses m duration reason d valid e =
      (rw (try_from-to_string m valid, e) refl, rw (try_from-to_string m valid) refl)
