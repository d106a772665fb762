-- ===== src/Api/Users/Accounts/Administrators.antt =====
-- The accounts of api/users_repository.py, and how many of them administer it.
use gps_tracking.Prelude.{
  ℕ, ◌≤◌, ◌≡◌, refl, ◌∙◌, true, ◌&&◌, Option, none, some, List, [], ◌∷◌, keep, length, ◌==◌, arith,
  Bool-cases, inl, inr,
}
use gps_tracking.Prelude.Dict.{nat_keys, lookup, store, lookup-store_miss}
use gps_tracking.Api.Users.{UserRow, values, differs, is_active_admin}

-- Each row stands under its own id, which no later one has.
abbrev pub IsKeyed : List (ℕ × UserRow) → Type 0
IsKeyed [] = Unit
IsKeyed ((k, row) ∷ rows) = (row.id ≡ k) × (lookup nat_keys rows k ≡ none) × IsKeyed rows

abbrev pub admins : Option ℕ → List (ℕ × UserRow) → ℕ
admins excluding rows =
    length (keep (λ (row : UserRow). is_active_admin row && differs excluding row.id) (values rows))

pub IsKeyed-store :
    (rows : List (ℕ × UserRow)) (k : ℕ) (row : UserRow)
    → row.id ≡ k
    → IsKeyed rows
    → IsKeyed (store nat_keys rows k row)
unfolding lookup store
IsKeyed-store [] k row h i = (h, refl, tt)
IsKeyed-store ((j, w) ∷ rows) k row h i = elim (Bool-cases (j == k)) [
  | inl e ↦ rw e (ground arith, i.1, i.2)
  | inr e ↦ rw e (
    i.0,
    lookup-store_miss nat_keys rows k j row (ground arith) ∙ i.1,
    IsKeyed-store rows k row h i.2,
  )
]

-- The others are counted as before.
pub admins-store :
    (rows : List (ℕ × UserRow)) (k : ℕ) (row : UserRow)
    → row.id ≡ k
    → IsKeyed rows
    → admins (some k) (store nat_keys rows k row) ≡ admins (some k) rows
unfolding store
admins-store [] k row e h = ground (arith, e)
admins-store ((j, w) ∷ rows) k row e h = ground (arith, e, admins-store rows k row e h.2, h.0)

pub admins_le : (k : ℕ) (rows : List (ℕ × UserRow)) → admins (some k) rows ≤ admins none rows
admins_le k [] = omega arith
admins_le k ((j, w) ∷ rows) = ground (arith, admins_le k rows)

-- A row in the place of another counts at least as much if it is an active administrator where that is one.
pub admins-store_le :
    (rows : List (ℕ × UserRow)) (k : ℕ) (old new : UserRow)
    → lookup nat_keys rows k ≡ some old
    → (is_active_admin old ≡ true → is_active_admin new ≡ true)
    → admins none rows ≤ admins none (store nat_keys rows k new)
unfolding lookup store
admins-store_le [] k old new e h = ground arith
admins-store_le ((j, w) ∷ rows) k old new e h = elim (Bool-cases (j == k)) [
  | inl same ↦ ground (arith, same, e, h)
  | inr same ↦ ground (arith, same, e, h, admins-store_le rows k old new)
]

pub admins-store_new :
    (rows : List (ℕ × UserRow)) (k : ℕ) (new : UserRow)
    → lookup nat_keys rows k ≡ none
    → admins none rows ≤ admins none (store nat_keys rows k new)
unfolding lookup store
admins-store_new [] k new e = ground arith
admins-store_new ((j, w) ∷ rows) k new e = ground (arith, e, admins-store_new rows k new)

-- The row under an id has it.
pub lookup-IsKeyed :
    (rows : List (ℕ × UserRow)) (k : ℕ) (row : UserRow)
    → IsKeyed rows
    → lookup nat_keys rows k ≡ some row
    → row.id ≡ k
unfolding lookup
lookup-IsKeyed [] k row h e = ground arith
lookup-IsKeyed ((j, w) ∷ rows) k row h e = ground (arith, h.0, e, lookup-IsKeyed rows k row h.2)
