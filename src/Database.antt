-- ===== src/Database.antt =====
-- What src/database/mod.rs and src/keys.rs do to the tables of users and keys. The hash of
-- a password and random bytes are arguments.
pub mod Registration
pub mod Salt
use titanirc.Base.{
  ℕ, ◌+◌, max, Bool, true, Option, none, some, List, [], ◌∷◌, if◌then◌else◌, lookup, insert, find,
  HashMap, Text, text, text_eq, nat_eq, ◌==◌, length,
}
use titanirc.Connection.{UserId}
use titanirc.Connection.Authenticate.{Bytes, Verdict, Credentials}

-- A row of `users`.
pub record UserRow : Type 0 where
  pub id : UserId
  pub username : Text
  pub password : Text

-- The key of a new row: one more than the largest.
abbrev pub next_id : List UserRow → UserId
next_id [] = 1
next_id (r ∷ rows) = max (r.id + 1) (next_id rows)

abbrev pub has_username : Text → UserRow → Bool
has_username username r = r.username == username

-- What the program calls of `argon2`: a hash of a password with a fresh salt, and its check.
pub record Argon : Type 0 where
  pub hash_password : Bytes → Text → Text
  pub verify : Bytes → Text → Verdict

module _ (argon : Argon) where
  -- `create_user_or_fetch_password_hash` with the fresh `salt`.
  unfoldable pub create_user_or_fetch_password_hash :
      Text → List UserRow → Text → Bytes → List UserRow × UserId × Text
  create_user_or_fetch_password_hash salt rows username password =
      elim (find (has_username username) rows) [
        | some r ↦ (rows, r.id, r.password)
        | none ↦
            let r : UserRow = record {
              id = next_id rows;
              username = username;
              password = argon.hash_password password salt;
            } in
            (r ∷ rows, r.id, r.password)
      ]

  -- `verify_password`
  unfoldable pub verify_password : Bytes → Text → Verdict
  verify_password password hash = argon.verify password hash

  -- What the negotiation reads of a database with these users.
  abbrev pub credentials :
      (Text → Option Bytes) → (Bytes → Option Text) → Text → List UserRow → Credentials
  credentials decode from_utf8 salt rows = record {
    decode = decode;
    from_utf8 = from_utf8;
    fetch_user = λ name password.
        let (rows', id, hash) = create_user_or_fetch_password_hash salt rows name password in
        (id, hash);
    verify_password = verify_password;
  }

-- `reserve_nick` of src/database/mod.rs, on the owners of the nicks.
unfoldable pub reserve_nick : HashMap Text UserId → Text → UserId → HashMap Text UserId × Bool
reserve_nick nicks nick user_id = elim (lookup nick nicks) [
  | some owner ↦ (nicks, owner == user_id)
  | none ↦ (insert nick user_id nicks, true)
]

-- `fetch_or_create` of src/keys.rs, with the random bytes that it would store.
unfoldable pub fetch_or_create : Bytes → HashMap Text Bytes → Text → HashMap Text Bytes × Bytes
fetch_or_create random keys name = elim (lookup name keys) [
  | some key ↦ (keys, key)
  | none ↦ (insert name random keys, random)
]

-- `struct Keys`
pub record Keys : Type 0 where
  pub ip_salt : Bytes

-- `try_into` an array of 32 bytes, and its `unwrap`: `none` is the panic.
abbrev pub salt_of : Bytes → Option Keys
salt_of bytes = if length bytes == 32 then some (record { ip_salt = bytes }) else none

-- `Keys::new`
unfoldable pub new_keys : Bytes → HashMap Text Bytes → HashMap Text Bytes × Option Keys
new_keys random keys =
    let (keys', key) = fetch_or_create random keys (text "ip_salt") in (keys', salt_of key)
