-- ===== src/Connection/Proof.antt =====
-- What the actor of src/connection/authenticate.rs takes as the proof of a user's identity.
use titanirc.Base.{
  ◌≡◌, ap, inl, inr, Option, none, some, List, [], ◌∷◌, arith, Text, text_eq, text_beq_iff,
  Option-cases,
}
use mathlib.Core.Path.{subst}
use titanirc.Connection.{UserId}
use titanirc.Connection.Sasl.{AuthStrategy, plain}
use titanirc.Connection.Authenticate.{
  Bytes, Credentials, Verdict, correct, PlainResult, accepted, plain_parts, check_password,
  verdict_result, splitn, handle_plain_authentication, Authenticate, done, plain_reply,
  handle_strategy, handle_authenticate,
}

module _ (env : Credentials) where
  -- A message that carries the name twice and the password of the user that is returned.
  pub record IsProof (name : Text) (id : UserId) (arguments : Text) : Type 0 where
    pub bytes : Bytes
    pub identity : Bytes
    pub password : Bytes
    pub rest : List Bytes
    pub decodes : env.decode arguments ≡ some bytes
    pub parts : splitn 3 0 bytes ≡ identity ∷ identity ∷ password ∷ rest
    pub reads : env.from_utf8 identity ≡ some name
    pub known : (env.fetch_user name password).0 ≡ id
    pub verified : env.verify_password password (env.fetch_user name password).1 ≡ correct

  verdict_accepted :
      (name n : Text) (i id : UserId) (v : Verdict)
      → verdict_result env n i v ≡ accepted name id
      → (n ≡ name) × (i ≡ id) × (v ≡ correct)
  unfolding verdict_result
  verdict_accepted name n i id v e = ground arith

  password_accepted :
      (password : Bytes) (decoded : Option Text) (name : Text) (id : UserId)
      → check_password env password decoded ≡ accepted name id
      → (decoded ≡ some name)
        × ((env.fetch_user name password).0 ≡ id)
        × (env.verify_password password (env.fetch_user name password).1 ≡ correct)
  unfolding check_password
  password_accepted password none name id e = cc
  password_accepted password (some n) name id e =
      let (same, known, right) = verdict_accepted name n _ id _ e in
      (
        ap (λ (t : Text). some t) same,
        subst (λ (t : Text). (env.fetch_user t password).0 ≡ id) same known,
        subst (λ (t : Text). env.verify_password password (env.fetch_user t password).1 ≡ correct)
            same right,
      )

  parts_accepted :
      (parts : List Bytes) (name : Text) (id : UserId)
      → plain_parts env parts ≡ accepted name id
      → (identity : Bytes) × (password : Bytes) × (rest : List Bytes) × (parts
          ≡ identity ∷ identity ∷ password ∷ rest)
        × (check_password env password (env.from_utf8 identity) ≡ accepted name id)
  unfolding plain_parts
  parts_accepted [] name id e = cc
  parts_accepted (a ∷ []) name id e = cc
  parts_accepted (a ∷ b ∷ []) name id e = cc
  parts_accepted (a ∷ b ∷ p ∷ rest) name id e =
      (b, p, rest, ground (arith, text_beq_iff a b), ground arith)

  -- A `PLAIN` exchange is accepted only for a message that carries one identity twice and the
  -- password that verifies against that user's hash.
  pub handle_plain_authentication-IsProof :
      (arguments name : Text) (id : UserId)
      → handle_plain_authentication env arguments ≡ accepted name id
      → IsProof name id arguments
  unfolding handle_plain_authentication
  handle_plain_authentication-IsProof arguments name id e =
      elim (Option-cases (env.decode arguments)) [
        | inl bad ↦ absurd (cc (rw (handle_plain_authentication, bad) at e))
        | inr (bytes, good) ↦
            let (identity, password, rest, parts, checked) =
              parts_accepted (splitn 3 0 bytes) name id
                (rw (handle_plain_authentication, good) at e) in
            let (reads, known, verified) =
              password_accepted password (env.from_utf8 identity) name id checked in
            record {
              bytes = bytes;
              identity = identity;
              password = password;
              rest = rest;
              decodes = good;
              parts = parts;
              reads = reads;
              known = known;
              verified = verified;
            }
      ]

  plain_done :
      (r : PlainResult) (name : Text) (id : UserId)
      → plain_reply r ≡ done name id
      → r ≡ accepted name id
  plain_done r name id h = ground arith

  strategy_done :
      (strategy : Option AuthStrategy) (a : Authenticate) (msg name : Text) (id : UserId)
      → (handle_strategy env strategy a msg).1 ≡ done name id
      → handle_plain_authentication env msg ≡ accepted name id
  unfolding handle_strategy
  strategy_done none a msg name id h = ground arith
  strategy_done (some plain) a msg name id h =
      ground (arith, plain_done (handle_plain_authentication env msg) name id)

  -- The actor reports a user only for a proof.
  pub handle_authenticate-IsProof :
      (a : Authenticate) (msg name : Text) (id : UserId)
      → (handle_authenticate env a msg).1 ≡ done name id
      → IsProof name id msg
  unfolding handle_authenticate
  handle_authenticate-IsProof a msg name id e =
      handle_plain_authentication-IsProof msg name id
        (ground (arith, strategy_done a.selected_strategy a msg name id))
