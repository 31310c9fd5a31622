-- ===== src/Database/Salt.antt =====
-- The salt of src/keys.rs stays the same over restarts.
use titanirc.Base.{
  ◌≡◌, refl, inl, inr, some, lookup, lookup-insert_self, HashMap, Text, text, text_eq, nat_eq,
  Option-cases,
}
use titanirc.Connection.Authenticate.{Bytes}
use titanirc.Database.{fetch_or_create, new_keys}

fetched :
    (random : Bytes) (keys : HashMap Text Bytes) (name : Text) (key : Bytes)
    → lookup name keys ≡ some key
    → fetch_or_create random keys name ≡ (keys, key)
unfolding fetch_or_create
fetched random keys name key e = rw (fetch_or_create, e) refl

stored :
    (random : Bytes) (keys : HashMap Text Bytes) (name : Text)
    → lookup name (fetch_or_create random keys name).0 ≡ some (fetch_or_create random keys name).1
unfolding fetch_or_create
stored random keys name = elim (Option-cases (lookup name keys)) [
  | inl e ↦ rw (fetch_or_create, e) (lookup-insert_self name random keys)
  | inr (key, e) ↦ rw (fetch_or_create, e) e
]

-- Whatever random bytes a later start draws, it finds the salt of the first one, and changes no
-- key.
pub new_keys_again :
    (random random' : Bytes) (keys : HashMap Text Bytes)
    → new_keys random' (new_keys random keys).0 ≡ new_keys random keys
unfolding new_keys
new_keys_again random random' keys =
    rw
      (fetched random' (fetch_or_create random keys (text "ip_salt")).0 (text "ip_salt") _
        (stored random keys (text "ip_salt")))
      refl
