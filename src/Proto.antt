-- ===== src/Proto.antt =====
-- The raw commands of src/proto.rs. The parser of durations is that of the `humantime` crate, which
-- is a parameter.
pub mod Laws
use titanirc.Base.{
  ℕ, Bool, true, false, ◌&&◌, Option, none, some, List, [], ◌∷◌, if◌then◌else◌, ltb, length,
  is_empty, starts_with, Text, text, text_eq, ◌==◌,
}
use titanirc.Irc.{Message}
use titanirc.Irc.Response.{err_unknowncommand}
use titanirc.HostMask
use titanirc.HostMask.{HostMask, MaskError}
use titanirc.Messages.{Duration}
use titanirc.Channel.Responses.{reply}

pub data LocalCommand : Type 0 where
  list_gline : LocalCommand
  remove_gline : HostMask → LocalCommand
  gline : HostMask → Option Duration → Option Text → LocalCommand

-- `enum Error`; the reason of a bad duration is left out.
pub data ProtoError : Type 0 where
  unknown_command missing_argument too_many_arguments invalid_duration : ProtoError
  invalid_host_mask : MaskError → ProtoError

-- `Result<T, Error>`
pub data Result (T : Type 0) : Type 0 where
  ok : T → Result T
  err : ProtoError → Result T

-- `?` and `and_then`
abbrev pub and_then : {S T : Type 0} → Result S → (S → Result T) → Result T
and_then (ok x) f = f x
and_then (err e) f = err e

abbrev pub masked : HostMask.Parsed → Result HostMask
masked (HostMask.ok m) = ok m
masked (HostMask.err e) = err (invalid_host_mask e)

unfoldable pub parse_host_mask : Text → Result HostMask
parse_host_mask v = masked (HostMask.try_from v)

abbrev pub opt : {T : Type 0} → (Text → Result T) → Option Text → Result (Option T)
opt transform none = ok none
opt transform (some v) = and_then (transform v) (λ x. ok (some x))

abbrev pub required : {T : Type 0} → (Text → Result T) → Option Text → Result T
required transform none = err missing_argument
required transform (some v) = transform v

-- `String::remove(0)`, which the callers' guard keeps from an empty string.
abbrev pub drop_first : Text → Text
drop_first [] = []
drop_first (c ∷ s) = s

abbrev pub truncate_first_character : {T : Type 0} → (Text → Result T) → Text → Result T
truncate_first_character transform v = transform (drop_first v)

abbrev pub wrap_ok : {T : Type 0} → (Text → T) → Text → Result T
wrap_ok transform v = ok (transform v)

abbrev pub at : ℕ → List Text → Option Text
at n [] = none
at ℕ.zero (a ∷ args) = some a
at (ℕ.suc n) (a ∷ args) = at n args

abbrev pub parse1 :
    {T : Type 0} → (T → LocalCommand) → List Text → (Option Text → Result T) → Result LocalCommand
parse1 out args t1 =
    if ltb 1 (length args)
    then err too_many_arguments
    else and_then (t1 (at 0 args)) (λ a. ok (out a))

abbrev pub parse3 :
    {S T U : Type 0}
    → (S → T → U → LocalCommand)
    → List Text
    → (Option Text → Result S)
    → (Option Text → Result T)
    → (Option Text → Result U)
    → Result LocalCommand
parse3 out args t1 t2 t3 =
    if ltb 3 (length args)
    then err too_many_arguments
    else and_then (t1 (at 0 args))
        (λ a. and_then (t2 (at 1 args)) (λ b. and_then (t3 (at 2 args)) (λ c. ok (out a b c))))

-- The guard of the second arm of the `match`.
abbrev pub is_removal : List Text → Bool
is_removal (a ∷ []) = starts_with b'-' a
is_removal _ = false

module _ (humantime : Text → Option Duration) where
  abbrev pub timed : Option Duration → Result Duration
  timed none = err invalid_duration
  timed (some d) = ok d

  abbrev pub parse_duration : Text → Result Duration
  parse_duration v = timed (humantime v)

  -- `TryFrom<(String, Vec<String>)>`
  unfoldable pub try_from : Text → List Text → Result LocalCommand
  try_from command args =
      if command == text "GLINE"
      then if is_empty args
        then ok list_gline
        else if is_removal args
        then parse1 remove_gline args (required (truncate_first_character parse_host_mask))
        else parse3 gline args (required parse_host_mask) (opt parse_duration)
            (opt (wrap_ok (λ s. s)))
      else err unknown_command

-- `Error::into_messages`
unfoldable pub error_messages : ProtoError → Text → List Message
error_messages e for_user =
    reply err_unknowncommand (for_user ∷ text "command" ∷ text "Unknown command" ∷ []) ∷ []
