-- ===== src/HostMask/RoundTrip.antt =====
-- What the parser of src/host_mask.rs accepts, and that it reads back what `Display` writes.
use titanirc.Base.{
  ℕ, ◌<◌, ◌≡◌, refl, ap, Bool, true, false, ◌&&◌, not, Option, none, some, [], ◌∷◌, ◌++◌, arith,
  if◌then◌else◌, Text, text, contains, ends_with, count, split_once, nat_beq, is_empty, unwrap_or,
  Bool-cases, inl, inr,
}
use titanirc.HostMask.{
  HostMask, to_string, is_invalid, try_from, Parsed, ok, err, invalid_nick, invalid_username,
  invalid_hostname,
}

-- A `*` stands at the end or nowhere.
abbrev pub star_last : Text → Bool
star_last [] = true
star_last (c ∷ []) = true
star_last (c ∷ d ∷ s) = not (nat_beq c b'*') && star_last (d ∷ s)

-- A section of a mask: not empty, and with no `*` before its end.
abbrev pub is_section : Text → Bool
is_section v = not (is_empty v) && star_last v

count-zero : (v : Text) → contains b'*' v ≡ false → count b'*' v ≡ 0
count-zero [] h = refl
count-zero (c ∷ v) h = ground (arith, count-zero v)

ends_with-contains : (v : Text) → ends_with b'*' v ≡ true → contains b'*' v ≡ true
ends_with-contains [] h = cc
ends_with-contains (c ∷ []) h = ground arith
ends_with-contains (c ∷ d ∷ v) h = ground (arith, ends_with-contains (d ∷ v))

count-pos : (v : Text) → contains b'*' v ≡ true → 0 < count b'*' v
count-pos [] h = cc
count-pos (c ∷ v) h = ground (arith, count-pos v)

-- The closure's three tests say together that the text is no section.
pub is_invalid-eq : (v : Text) → is_invalid v ≡ not (is_section v)
unfolding is_invalid
is_invalid-eq [] = refl
is_invalid-eq (c ∷ []) = ground arith
is_invalid-eq (c ∷ d ∷ v) = ground (
  arith,
  is_invalid-eq (d ∷ v),
  count-zero (d ∷ v),
  count-pos (d ∷ v),
  ends_with-contains (d ∷ v),
)

-- A text is split where the first separator stands.
pub split_once-append :
    (c : ℕ) (s t : Text) → contains c s ≡ false → split_once c (s ++ (c ∷ t)) ≡ some (s, t)
split_once-append c [] t h = ground arith
split_once-append c (d ∷ s) t h = ground (arith, split_once-append c s t)

-- A mask that can be written and read: three sections, free of the separators before them.
pub record IsValid (m : HostMask) : Type 0 where
  pub nick_section : is_section m.nick ≡ true
  pub username_section : is_section m.username ≡ true
  pub host_section : is_section m.host ≡ true
  pub no_bang : contains b'!' m.nick ≡ false
  pub no_at : contains b'@' m.username ≡ false

-- The parser reads back every valid mask from its text.
pub try_from-to_string : (m : HostMask) → IsValid m → try_from (to_string m) ≡ ok m
unfolding try_from to_string
try_from-to_string m v = rw (
  split_once-append b'!' m.nick (m.username ++ (b'@' ∷ m.host)) v.no_bang,
  split_once-append b'@' m.username m.host v.no_at,
  is_invalid-eq m.nick,
  is_invalid-eq m.username,
  is_invalid-eq m.host,
  v.nick_section,
  v.username_section,
  v.host_section,
)

-- What `split_once` has found out, by its result.
abbrev Splits : ℕ → Text → Option (Text × Text) → Type 0
Splits c s none = contains c s ≡ false
Splits c s (some (a, b)) = (s ≡ a ++ (c ∷ b)) × (contains c a ≡ false)

-- The test and the rest of the list, before the first character is put back.
Splits-later :
    (c d : ℕ) (s : Text) (r : Option (Text × Text))
    → nat_beq d c ≡ false
    → Splits c s r
    → Splits c (d ∷ s) (elim r [ none ↦ none | some (a, b) ↦ some (d ∷ a, b) ])
Splits-later c d s none ne h = rw ne h
Splits-later c d s (some (a, b)) ne h = (ap (λ (t : Text). d ∷ t) h.0, rw ne h.1)

split_once-Splits : (c : ℕ) (s : Text) → Splits c s (split_once c s)
split_once-Splits c [] = refl
split_once-Splits c (d ∷ s) = elim (Bool-cases (nat_beq d c)) [
  | inl e ↦ rw e (ground arith, refl)
  | inr ne ↦ rw ne (Splits-later c d s (split_once c s) ne (split_once-Splits c s))
]

-- The three checks of the parser.
abbrev checked : Text → Text → Text → Parsed
checked n u h =
    if is_invalid n
    then err invalid_nick
    else if is_invalid u
    then err invalid_username
    else if is_invalid h
    then err invalid_hostname
    else ok (record { nick = n; username = u; host = h })

checked-IsValid :
    (n u h : Text) (m : HostMask)
    → contains b'!' n ≡ false
    → contains b'@' u ≡ false
    → checked n u h ≡ ok m
    → IsValid m
checked-IsValid n u h m no_bang no_at e =
    ground (arith, is_invalid-eq n, is_invalid-eq u, is_invalid-eq h)

before_separator :
    (c : ℕ) (s a b : Text) (r : Option (Text × Text))
    → Splits c s r
    → contains c a ≡ false
    → (contains c (unwrap_or r (a, b)).0 ≡ false)
before_separator c s a b none h e = e
before_separator c s a b (some (x, y)) h e = h.1

nick_before_bang :
    (s : Text) (r : Option (Text × Text))
    → Splits b'!' s r
    → contains b'!' (unwrap_or r (s, [])).0 ≡ false
nick_before_bang s none h = h
nick_before_bang s (some (a, b)) h = h.1

-- Every mask that the parser accepts is valid.
pub try_from-IsValid : (s : Text) (m : HostMask) → try_from s ≡ ok m → IsValid m
unfolding try_from
try_from-IsValid s m e =
    let (n, rest) = unwrap_or (split_once b'!' s) (s, []) in
    let (u, h) = unwrap_or (split_once b'@' rest) (text "*", text "*") in
    checked-IsValid n u h m (nick_before_bang s (split_once b'!' s) (split_once-Splits b'!' s))
      (before_separator b'@' rest (text "*") (text "*") (split_once b'@' rest)
        (split_once-Splits b'@' rest) refl)
      e

-- Valid masks with the same text are the same mask.
pub to_string_inj : (a b : HostMask) → IsValid a → IsValid b → to_string a ≡ to_string b → a ≡ b
to_string_inj a b va vb e = cc (try_from-to_string a va, try_from-to_string b vb, ap try_from e)

split_once-none : (c : ℕ) (s : Text) → contains c s ≡ false → split_once c s ≡ none
split_once-none c [] h = refl
split_once-none c (d ∷ s) h = ground (arith, split_once-none c s)

-- Where no `@` follows the `!`, the text behind the `!` is dropped: the mask stands for every
-- username and every host.
try_from_no_at :
    (n rest : Text)
    → is_section n ≡ true
    → contains b'!' n ≡ false
    → contains b'@' rest ≡ false
    → try_from (n ++ (b'!' ∷ rest)) ≡ ok (record { nick = n; username = text "*"; host = text "*" })
unfolding try_from
try_from_no_at n rest section no_bang no_at = rw (
  split_once-append b'!' n rest no_bang,
  split_once-none b'@' rest no_at,
  is_invalid-eq n,
  section,
)
