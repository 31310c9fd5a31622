-- ===== src/Database/Registration.antt =====
-- The users that src/database/mod.rs makes and finds again.
use titanirc.Base.{
  ℕ, ◌+◌, ◌≤◌, ◌<◌, max, ◌≡◌, ◌≢◌, ◌↔◌, refl, ap, sym, ◌∙◌, inl, inr, Option, none, some, List, [],
  ◌∷◌, arith, find, Text, text_eq, ◌==◌, beq_refl, All, Has, Option-cases, Bool-cases, text_beq_iff,
}
use titanirc.Connection.Authenticate.{
  Bytes, correct, wrong_password, accepted, check_password, verdict_result,
}
use titanirc.Database.{
  UserRow, next_id, has_username, Argon, create_user_or_fetch_password_hash, verify_password,
  credentials,
}

-- A password verifies against its own hash, and no other does.
pub record IsSecure (argon : Argon) : Type 0 where
  pub same :
      (password salt : Text) → argon.verify password (argon.hash_password password salt) ≡ correct
  pub other :
      (password guess salt : Text)
      → guess ≢ password
      → argon.verify guess (argon.hash_password password salt) ≡ wrong_password

module _ (argon : Argon) where
  created :
      (salt : Text) (rows : List UserRow) (name : Text) (password : Bytes)
      → find (has_username name) rows ≡ none
      → create_user_or_fetch_password_hash argon salt rows name password ≡ (
        record { id = next_id rows; username = name; password = argon.hash_password password salt }
            ∷ rows,
        next_id rows,
        argon.hash_password password salt,
      )
  unfolding create_user_or_fetch_password_hash
  created salt rows name password e = rw (create_user_or_fetch_password_hash, e) refl

  fetched :
      (salt : Text) (rows : List UserRow) (name : Text) (password : Bytes) (r : UserRow)
      → find (has_username name) rows ≡ some r
      → create_user_or_fetch_password_hash argon salt rows name password ≡ (rows, r.id, r.password)
  unfolding create_user_or_fetch_password_hash
  fetched salt rows name password r e = rw (create_user_or_fetch_password_hash, e) refl

  found_first :
      (r : UserRow) (rows : List UserRow) → find (has_username r.username) (r ∷ rows) ≡ some r
  found_first r rows = rw (beq_refl r.username) refl

  row_stays :
      (salt : Text) (rows : List UserRow) (name other : Text) (password : Bytes) (r : UserRow)
      → find (has_username name) rows ≡ some r
      → find
          (has_username name)
          (create_user_or_fetch_password_hash argon salt rows other password).0
        ≡ some r
  row_stays salt rows name other password r h =
      elim (Option-cases (find (has_username other) rows)) [
        | inr (s, e) ↦ rw (fetched salt rows other password s e) h
        | inl e ↦ elim (Bool-cases (other == name)) [
          | inr n ↦ rw (created salt rows other password e, n) h
          | inl y ↦ absurd (cc (h, rw ((text_beq_iff other name).0 y) at e))
        ]
      ]

  -- The logins that come one after another: the salt, the name and the password of each.
  abbrev pub login_all : List (Text × Text × Bytes) → List UserRow → List UserRow
  login_all [] rows = rows
  login_all ((salt, name, password) ∷ rest) rows =
      login_all rest (create_user_or_fetch_password_hash argon salt rows name password).0

  row_stays_always :
      (logins : List (Text × Text × Bytes)) (rows : List UserRow) (name : Text) (r : UserRow)
      → find (has_username name) rows ≡ some r
      → find (has_username name) (login_all logins rows) ≡ some r
  row_stays_always [] rows name r h = h
  row_stays_always ((salt, other, password) ∷ rest) rows name r h =
      row_stays_always rest (create_user_or_fetch_password_hash argon salt rows other password).0
        name r (row_stays salt rows name other password r h)

  -- A name that is new belongs to the password that it is first used with: after any further
  -- logins, under this name and under others and with any passwords, it is accepted with this
  -- password and with no other, where a password verifies against its own hash only.
  pub first_password_binds :
      (decode : Text → Option Bytes) (from_utf8 : Bytes → Option Text) (salt salt' : Text)
      (rows : List UserRow) (name : Text) (password guess : Bytes)
      (logins : List (Text × Text × Bytes))
      → IsSecure argon
      → find (has_username name) rows ≡ none
      → let (rows', id, hash) = create_user_or_fetch_password_hash argon salt rows name password in
        (check_password
            (credentials argon decode from_utf8 salt' (login_all logins rows'))
            guess
            (some name)
          ≡ accepted name id)
        ↔ (guess ≡ password)
  unfolding check_password verify_password verdict_result
  first_password_binds decode from_utf8 salt salt' rows name password guess logins secure new =
      let r : UserRow = record {
        id = next_id rows;
        username = name;
        password = argon.hash_password password salt;
      } in
      let e = created salt rows name password new in
      let stays = row_stays_always logins (r ∷ rows) name r (found_first r rows) in
      let again = fetched salt' (login_all logins (r ∷ rows)) name guess r stays in
      rw (e, again)
        (elim (Bool-cases (guess == password)) [
          | inl y ↦
              let same = (text_beq_iff guess password).0 y in
              ((λ _. same), (λ _. rw (same, secure.same password salt) refl))
          | inr n ↦
              let differ : guess ≢ password = λ q. cc (n, (text_beq_iff guess password).1 q) in
              (
                (λ h. absurd (cc (rw (secure.other password guess salt differ) at h))),
                (λ q. absurd (differ q)),
              )
        ])

-- No two rows have the same username, and each has a larger key than those before it.
abbrev pub AreDistinct : List UserRow → Type 0
AreDistinct [] = Unit
AreDistinct (r ∷ rows) =
    (find (has_username r.username) rows ≡ none) × All (λ x. x.id < r.id) rows × AreDistinct rows

below_next : (rows : List UserRow) → All (λ x. x.id < next_id rows) rows
below_next [] = tt
below_next (r ∷ rows) = (omega arith, raised rows (next_id rows) (omega arith) (below_next rows))
  where
    raised :
        (xs : List UserRow) (b : ℕ)
        → b ≤ max (r.id + 1) (next_id rows)
        → All (λ x. x.id < b) xs
        → All (λ x. x.id < max (r.id + 1) (next_id rows)) xs
    raised [] b h a = tt
    raised (x ∷ xs) b h a = (omega (arith, a.0), raised xs b h a.1)

smaller :
    (x : UserRow) (rows : List UserRow) (s : UserRow)
    → Has s rows
    → All (λ y. y.id < x.id) rows
    → s.id ≢ x.id
smaller x [] s h a e = elim h [ ]
smaller x (y ∷ rows) s (inl h) a e = omega (arith, a.0, ap (λ (r : UserRow). r.id) h)
smaller x (y ∷ rows) s (inr h) a e = smaller x rows s h a.1 e

module _ (argon : Argon) where
  pub create_user-AreDistinct :
      (salt : Text) (rows : List UserRow) (name : Text) (password : Bytes)
      → AreDistinct rows
      → AreDistinct (create_user_or_fetch_password_hash argon salt rows name password).0
  create_user-AreDistinct salt rows name password d =
      elim (Option-cases (find (has_username name) rows)) [
        | inl e ↦ rw (created argon salt rows name password e) (e, below_next rows, d)
        | inr (r, e) ↦ rw (fetched argon salt rows name password r e) d
      ]

  -- The row of a name carries the id that the name was given.
  Has-row :
      (name : Text) (rows : List UserRow) (r : UserRow)
      → find (has_username name) rows ≡ some r
      → Has r rows × (r.username ≡ name)
  Has-row name [] r e = absurd (cc e)
  Has-row name (x ∷ rows) r e = ground (arith, text_beq_iff x.username name, Has-row name rows r)

  row_found :
      (salt : Text) (rows : List UserRow) (name : Text) (password : Bytes)
      → (r : UserRow) × (find
            (has_username name)
            (create_user_or_fetch_password_hash argon salt rows name password).0
          ≡ some r)
        × (r.id ≡ (create_user_or_fetch_password_hash argon salt rows name password).1)
  row_found salt rows name password = elim (Option-cases (find (has_username name) rows)) [
    | inl e ↦
        let r : UserRow = record {
          id = next_id rows;
          username = name;
          password = argon.hash_password password salt;
        } in
        (
          r,
          rw (created argon salt rows name password e) (found_first argon r rows),
          rw (created argon salt rows name password e) refl,
        )
    | inr (r, e) ↦ (
      r,
      rw (fetched argon salt rows name password r e) e,
      rw (fetched argon salt rows name password r e) refl,
    )
  ]

  id_of_one :
      (rows : List UserRow) (r s : UserRow)
      → AreDistinct rows
      → Has r rows
      → Has s rows
      → r.id ≡ s.id
      → r ≡ s
  id_of_one [] r s d h k e = elim h [ ]
  id_of_one (x ∷ rows) r s d (inl h) (inl k) e = h ∙ sym k
  id_of_one (x ∷ rows) r s d (inl h) (inr k) e = absurd (smaller x rows s k d.1 (rw h at (sym e)))
  id_of_one (x ∷ rows) r s d (inr h) (inl k) e = absurd (smaller x rows r h d.1 (rw k at e))
  id_of_one (x ∷ rows) r s d (inr h) (inr k) e = id_of_one rows r s d.2 h k e

  -- Two users who log in, one after the other, get the same id only under the same name.
  pub ids_name_one_user :
      (salt salt' : Text) (rows : List UserRow) (a b : Text) (p q : Bytes)
      → AreDistinct rows
      → let (rows', id, hash) = create_user_or_fetch_password_hash argon salt rows a p in
        (create_user_or_fetch_password_hash argon salt' rows' b q).1 ≡ id → a ≡ b
  ids_name_one_user salt salt' rows a b p q d e =
      let rows1 = (create_user_or_fetch_password_hash argon salt rows a p).0 in
      let rows2 = (create_user_or_fetch_password_hash argon salt' rows1 b q).0 in
      let (r, fr, ir) = row_found salt rows a p in
      let (s, fs, is) = row_found salt' rows1 b q in
      let d2 = create_user-AreDistinct salt' rows1 b q (create_user-AreDistinct salt rows a p d) in
      let (hr, nr) = Has-row a rows2 r (row_stays argon salt' rows1 a b q r fr) in
      let (hs, ns) = Has-row b rows2 s fs in
      let same = id_of_one rows2 r s d2 hr hs (ir ∙ (sym e ∙ sym is)) in
      sym nr ∙ (ap (λ (x : UserRow). x.username) same ∙ ns)
