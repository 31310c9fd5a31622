-- ===== src/Connection/Authenticate.antt =====
-- The actor of src/connection/authenticate.rs. Base64, UTF-8, the user table and the check of a
-- password against its hash are the parameter `Credentials`.
use titanirc.Base.{
  ℕ, zero, suc, Bool, true, not, Option, none, some, List, [], ◌∷◌, if◌then◌else◌, Text, text,
  text_eq, ◌==◌, split_once,
}
use titanirc.Irc.{Message, bare, authenticate}
use titanirc.Connection.{UserId}
use titanirc.Connection.Sasl.{
  AuthStrategy, plain, auth_strategy_from_str, sasl_strategy_unsupported, sasl_aborted, sasl_fail,
}

abbrev pub Bytes : Type 0
Bytes = List ℕ

-- `Ok(())`, `Err(Error::Password)`, or another error of the hashing library.
pub data Verdict : Type 0 where
  correct wrong_password broken : Verdict

pub record Credentials : Type 0 where
  -- `BASE64_STANDARD.decode` and `str::from_utf8`
  pub decode : Text → Option Bytes
  pub from_utf8 : Bytes → Option Text
  -- `create_user_or_fetch_password_hash`: the row's user and password hash
  pub fetch_user : Text → Bytes → UserId × Text
  -- `verify_password`
  pub verify_password : Bytes → Text → Verdict

-- The `io::Error`s, by what went wrong.
pub data AuthError : Type 0 where
  bad_base64 bad_plain_message identity_mismatch bad_utf8 bad_hash : AuthError

pub data PlainResult : Type 0 where
  accepted : Text → UserId → PlainResult
  refused : PlainResult
  failed : AuthError → PlainResult

-- `splitn(n, c)`: the last piece holds the rest.
abbrev pub splitn : ℕ → ℕ → Bytes → List Bytes
splitn zero c s = []
splitn (suc zero) c s = s ∷ []
splitn (suc (suc n)) c s = elim (split_once c s) [
  | none ↦ s ∷ []
  | some (a, b) ↦ a ∷ splitn (suc n) c b
]

module _ (env : Credentials) where
  unfoldable pub verdict_result : Text → UserId → Verdict → PlainResult
  verdict_result name id correct = accepted name id
  verdict_result name id wrong_password = refused
  verdict_result name id broken = failed bad_hash

  unfoldable pub check_password : Bytes → Option Text → PlainResult
  unfolding verdict_result
  check_password password none = failed bad_utf8
  check_password password (some name) =
      let (user_id, hash) = env.fetch_user name password in
      verdict_result name user_id (env.verify_password password hash)

  unfoldable pub plain_parts : List Bytes → PlainResult
  unfolding check_password
  plain_parts (authorization ∷ authentication ∷ password ∷ rest) =
      if not (authorization == authentication)
      then failed identity_mismatch
      else check_password password (env.from_utf8 authentication)
  plain_parts _ = failed bad_plain_message

  -- `handle_plain_authentication`
  unfoldable pub handle_plain_authentication : Text → PlainResult
  unfolding plain_parts
  handle_plain_authentication arguments = elim (env.decode arguments) [
    | none ↦ failed bad_base64
    | some bytes ↦ plain_parts (splitn 3 0 bytes)
  ]

-- `struct Authenticate`, with whether the actor has stopped.
pub record Authenticate : Type 0 where
  pub selected_strategy : Option AuthStrategy
  pub stopped : Bool

-- What `send` to the actor yields: `closed` is the mailbox error of a stopped actor.
pub data AuthenticateResult : Type 0 where
  reply : Message → AuthenticateResult
  done : Text → UserId → AuthenticateResult
  error : AuthError → AuthenticateResult
  closed : AuthenticateResult

abbrev pub plain_reply : PlainResult → AuthenticateResult
plain_reply (accepted name id) = done name id
plain_reply refused = reply sasl_fail
plain_reply (failed e) = error e

module _ (env : Credentials) where
  -- `Handler<AuthenticateMessage>`, by the selected strategy.
  unfoldable pub handle_strategy :
      Option AuthStrategy → Authenticate → Text → Authenticate × AuthenticateResult
  handle_strategy none a msg = elim (auth_strategy_from_str msg) [
    | some strategy ↦
        (record a { selected_strategy = some strategy }, reply (bare (authenticate (text "+"))))
    | none ↦ (a, reply sasl_strategy_unsupported)
  ]
  handle_strategy (some plain) a msg =
      if msg == text "*"
      then (record a { stopped = true }, reply sasl_aborted)
      else (a, plain_reply (handle_plain_authentication env msg))

  unfoldable pub handle_authenticate : Authenticate → Text → Authenticate × AuthenticateResult
  unfolding handle_strategy
  handle_authenticate a msg =
      if a.stopped then (a, closed) else handle_strategy a.selected_strategy a msg
