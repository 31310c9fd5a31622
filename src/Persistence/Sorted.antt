-- ===== src/Persistence/Sorted.antt =====
-- The messages of a channel that src/persistence.rs gives out, and their order.
use titanirc.Base.{
  ◌<◌, ◌≤◌, ◌≡◌, refl, ◌⊎◌, inl, inr, List, [], ◌∷◌, arith, leb, nat_eq, text_eq, Bool-cases, Has,
  All, AreIncreasing,
}
use titanirc.Persistence.{Persistence, ChannelRow, insert_row, order_by_timestamp}

Has-insert_row :
    (r x : ChannelRow) (rows : List ChannelRow) → (x ≡ r) ⊎ Has x rows → Has x (insert_row r rows)
Has-insert_row r x [] (inl e) = inl e
Has-insert_row r x [] (inr h) = elim h [ ]
Has-insert_row r x (y ∷ rows) h = elim (Bool-cases (leb r.timestamp y.timestamp)) [
  | inl early ↦ rw early h
  | inr late ↦ rw late (elim h [
    | inl e ↦ inr (Has-insert_row r x rows (inl e))
    | inr h' ↦ elim h' [ inl e ↦ inl e | inr k ↦ inr (Has-insert_row r x rows (inr k)) ]
  ])
]

-- No row is lost.
pub Has-order_by_timestamp :
    (x : ChannelRow) (rows : List ChannelRow) → Has x rows → Has x (order_by_timestamp rows)
Has-order_by_timestamp x [] h = elim h [ ]
Has-order_by_timestamp x (r ∷ rows) (inl e) = Has-insert_row r x (order_by_timestamp rows) (inl e)
Has-order_by_timestamp x (r ∷ rows) (inr h) =
    Has-insert_row r x (order_by_timestamp rows) (inr (Has-order_by_timestamp x rows h))

insert_row-first :
    (r : ChannelRow) (rows : List ChannelRow)
    → All (λ y. r.timestamp < y.timestamp) rows
    → insert_row r rows ≡ r ∷ rows
insert_row-first r [] h = refl
insert_row-first r (y ∷ rows) h = ground (arith, h.0)

-- Rows whose times increase are in order.
pub order_by_timestamp-increasing :
    (rows : List ChannelRow)
    → AreIncreasing (λ (r : ChannelRow). r.timestamp) rows
    → order_by_timestamp rows ≡ rows
order_by_timestamp-increasing [] i = refl
order_by_timestamp-increasing (r ∷ rows) i =
    rw (order_by_timestamp-increasing rows i.1) (insert_row-first r rows i.0)

-- No row is before an earlier one.
abbrev pub AreAscending : List ChannelRow → Type 0
AreAscending [] = Unit
AreAscending (r ∷ rows) = All (λ x. r.timestamp ≤ x.timestamp) rows × AreAscending rows
