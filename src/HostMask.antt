-- ===== src/HostMask.antt =====
-- `struct HostMask` of src/host_mask.rs: its text form and its parser. Borrowing leaves no trace.
pub mod RoundTrip
use titanirc.Base.{
  ℕ, ◌<◌, ◌≡◌, refl, Bool, true, false, not, ◌&&◌, ◌||◌, Option, none, some, List, [], ◌∷◌, ◌++◌,
  arith, if◌then◌else◌, ltb, unwrap_or, is_empty, Text, text, text_beq, text_beq_iff, contains,
  ends_with, count, split_once, PartialEq,
}

pub record HostMask : Type 0 where
  pub nick : Text
  pub username : Text
  pub host : Text

-- The derived `PartialEq`.
abbrev pub host_mask_beq : HostMask → HostMask → Bool
host_mask_beq a b =
    text_beq a.nick b.nick && (text_beq a.username b.username && text_beq a.host b.host)

-- `Display`
unfoldable pub to_string : HostMask → Text
to_string m = m.nick ++ (b'!' ∷ (m.username ++ (b'@' ∷ m.host)))

-- The `io::Error`s of the parser, by their message.
pub data MaskError : Type 0 where
  invalid_nick invalid_username invalid_hostname : MaskError

pub data Parsed : Type 0 where
  ok : HostMask → Parsed
  err : MaskError → Parsed

-- The closure `is_invalid`.
unfoldable pub is_invalid : Text → Bool
is_invalid v = (contains b'*' v && not (ends_with b'*' v)) || (ltb 1 (count b'*' v) || is_empty v)

-- `TryFrom<&str>`, and `FromStr`, which calls it.
unfoldable pub try_from : Text → Parsed
unfolding is_invalid
try_from s =
    let (nick, rest) = unwrap_or (split_once b'!' s) (s, []) in
    let (username, host) = unwrap_or (split_once b'@' rest) (text "*", text "*") in
    if is_invalid nick
    then err invalid_nick
    else if is_invalid username
    then err invalid_username
    else if is_invalid host
    then err invalid_hostname
    else ok (record { nick = nick; username = username; host = host })

-- `FromStr for HostMask<'static>`
unfoldable pub from_str : Text → Parsed
from_str s = try_from s

-- The codec of the database: `Encode` writes the text, and `Decode` parses it.
unfoldable pub encode : HostMask → Text
encode m = to_string m

unfoldable pub decode : Text → Parsed
decode s = from_str s
