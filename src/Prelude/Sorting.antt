-- ===== src/Prelude/Sorting.antt =====
-- Python's `sorted` by a test of order: an insertion sort, in which equal elements keep their places.
use gps_tracking.Prelude.Tests.{if◌then◌else◌, Bool-cases}
use gps_tracking.Prelude.Lists.{length, All}
use gps_tracking.Prelude.Filter.{keep}
use Prim.Native.Nat.{suc}
use mathlib.Core.Path.{◌≡◌, refl, sym, ap, ◌∙◌}
use mathlib.Core.Logic.{inl, inr}
use mathlib.Core.Bool.{Bool, true, false}
use mathlib.Core.List.{List, [], ◌∷◌, map}

module _ {A : Type 0} (before : A → A → Bool) where
  unfoldable pub insert : A → List A → List A
  insert x [] = x ∷ []
  insert x (y ∷ ys) = let rest = insert x ys in if before y x then y ∷ rest else x ∷ y ∷ ys

  unfoldable pub sorted : List A → List A
  unfolding insert
  sorted [] = []
  sorted (x ∷ xs) = insert x (sorted xs)

module _ {A : Type 0} (before : A → A → Bool) where
  -- No item stands after one that it should come before.
  abbrev pub Ordered : List A → Type 0
  Ordered [] = Unit
  Ordered (x ∷ []) = Unit
  Ordered (x ∷ y ∷ ys) = (before y x ≡ false) × Ordered (y ∷ ys)

  insert-Ordered :
      ((x y : A) → before x y ≡ true → before y x ≡ false)
      → (x : A) (ys : List A) → Ordered ys
      → Ordered (insert before x ys)
  unfolding insert
  insert-Ordered asym x [] h = tt
  insert-Ordered asym x (y ∷ []) h = elim (Bool-cases (before y x)) [
    | inl e ↦ rw e (asym y x e, tt)
    | inr e ↦ rw e (e, tt)
  ]
  insert-Ordered asym x (y ∷ z ∷ zs) h = elim (Bool-cases (before y x)) [
    | inr e ↦ rw e (e, h)
    | inl e ↦
        let rest = insert-Ordered asym x (z ∷ zs) h.1 in
        rw e (elim (Bool-cases (before z x)) [
          | inl e' ↦ let moved = rw e' at rest in rw e' (h.0, moved)
          | inr e' ↦ let moved = rw e' at rest in rw e' (asym y x e, moved)
        ])
  ]

  pub sorted-Ordered :
      ((x y : A) → before x y ≡ true → before y x ≡ false)
      → (xs : List A) → Ordered (sorted before xs)
  unfolding sorted
  sorted-Ordered asym [] = tt
  sorted-Ordered asym (x ∷ xs) = insert-Ordered asym x (sorted before xs) (sorted-Ordered asym xs)

  insert-All : (P : A → Type 0) (x : A) (ys : List A) → P x → All P ys → All P (insert before x ys)
  unfolding insert
  insert-All P x [] p h = (p, tt)
  insert-All P x (y ∷ ys) p h = elim (Bool-cases (before y x)) [
    | inl e ↦ rw e (h.0, insert-All P x ys p h.1)
    | inr e ↦ rw e (p, h)
  ]

  pub sorted-All : (P : A → Type 0) (xs : List A) → All P xs → All P (sorted before xs)
  unfolding sorted
  sorted-All P [] h = tt
  sorted-All P (x ∷ xs) h = insert-All P x (sorted before xs) h.0 (sorted-All P xs h.1)

  length-insert : (x : A) (ys : List A) → length (insert before x ys) ≡ suc (length ys)
  unfolding insert
  length-insert x [] = refl
  length-insert x (y ∷ ys) = elim (Bool-cases (before y x)) [
    | inl e ↦ rw e (ap suc (length-insert x ys))
    | inr e ↦ rw e refl
  ]

  pub length-sorted : (xs : List A) → length (sorted before xs) ≡ length xs
  unfolding sorted
  length-sorted [] = refl
  length-sorted (x ∷ xs) = length-insert x (sorted before xs) ∙ ap suc (length-sorted xs)

-- A change of the items that the order does not see.
module _ {A B : Type 0} (before : A → A → Bool) (before' : B → B → Bool) (f : A → B) where
  map-insert :
      ((x y : A) → before' (f x) (f y) ≡ before x y)
      → (x : A) (ys : List A) → map f (insert before x ys) ≡ insert before' (f x) (map f ys)
  unfolding insert
  map-insert h x [] = refl
  map-insert h x (y ∷ ys) = elim (Bool-cases (before y x)) [
    | inl e ↦ rw (h y x, e) (ap (◌∷◌ (f y)) (map-insert h x ys))
    | inr e ↦ rw (h y x, e) refl
  ]

  pub map-sorted :
      ((x y : A) → before' (f x) (f y) ≡ before x y)
      → (xs : List A) → map f (sorted before xs) ≡ sorted before' (map f xs)
  unfolding sorted
  map-sorted h [] = refl
  map-sorted h (x ∷ xs) =
      map-insert h x (sorted before xs) ∙ ap (insert before' (f x)) (map-sorted h xs)

-- Sorting what passes a test, or testing what has been sorted.
module _ {A : Type 0} (before : A → A → Bool) (test : A → Bool) where
  -- Nothing in the list comes before `x`.
  abbrev pub NoneBefore : A → List A → Type 0
  NoneBefore x ys = All (λ (y : A). before y x ≡ false) ys

  pub none_before :
      ((x y z : A) → before x y ≡ false → before y z ≡ false → before x z ≡ false)
      → (x y : A) (ys : List A) → before y x ≡ false
      → Ordered before (y ∷ ys)
      → NoneBefore x (y ∷ ys)
  none_before trans x y [] e h = (e, tt)
  none_before trans x y (z ∷ zs) e h = (e, none_before trans x z zs (trans z y x h.0 e) h.1)

  insert_front : (x : A) (ys : List A) → NoneBefore x ys → insert before x ys ≡ x ∷ ys
  unfolding insert
  insert_front x [] h = refl
  insert_front x (y ∷ ys) h = rw h.0 refl

  All-keep : (P : A → Type 0) (xs : List A) → All P xs → All P (keep test xs)
  All-keep P [] h = tt
  All-keep P (x ∷ xs) h = elim (Bool-cases (test x)) [
    | inl e ↦ rw e (h.0, All-keep P xs h.1)
    | inr e ↦ rw e (All-keep P xs h.1)
  ]

  Ordered-tail : (y : A) (ys : List A) → Ordered before (y ∷ ys) → Ordered before ys
  Ordered-tail y [] h = tt
  Ordered-tail y (z ∷ zs) h = h.1

  keep-insert_out :
      (x : A) (ys : List A) → test x ≡ false → keep test (insert before x ys) ≡ keep test ys
  unfolding insert
  keep-insert_out x [] e = rw e refl
  keep-insert_out x (y ∷ ys) e = elim (Bool-cases (before y x)) [
    | inl b ↦ rw (b, keep-insert_out x ys e) refl
    | inr b ↦ rw (b, e) refl
  ]

  keep-insert_in :
      ((x y z : A) → before x y ≡ false → before y z ≡ false → before x z ≡ false)
      → (x : A) (ys : List A) → Ordered before ys
      → test x ≡ true
      → keep test (insert before x ys) ≡ insert before x (keep test ys)
  unfolding insert
  keep-insert_in trans x [] h e = rw e refl
  keep-insert_in trans x (y ∷ ys) h e = elim (Bool-cases (before y x)) [
    | inl b ↦
        let rest = keep-insert_in trans x ys (Ordered-tail y ys h) e in
        elim (Bool-cases (test y)) [
          | inl k ↦ rw (b, k, rest, b) refl
          | inr k ↦ rw (b, k, rest) refl
        ]
    | inr b ↦
        rw (b, e)
          (sym (
            insert_front x (keep test (y ∷ ys))
              (All-keep (λ (z : A). before z x ≡ false) (y ∷ ys) (none_before trans x y ys b h))))
  ]

  pub keep-sorted :
      ((x y : A) → before x y ≡ true → before y x ≡ false)
      → ((x y z : A) → before x y ≡ false → before y z ≡ false → before x z ≡ false)
      → (xs : List A) → keep test (sorted before xs) ≡ sorted before (keep test xs)
  unfolding sorted
  keep-sorted asym trans [] = refl
  keep-sorted asym trans (x ∷ xs) =
      let rest = keep-sorted asym trans xs in
      elim (Bool-cases (test x)) [
        | inl e ↦ rw e (
            keep-insert_in trans x (sorted before xs) (sorted-Ordered before asym xs) e
            ∙ ap (insert before x) rest)
        | inr e ↦ rw e (keep-insert_out x (sorted before xs) e ∙ rest)
      ]
