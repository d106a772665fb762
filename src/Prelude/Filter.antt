-- ===== src/Prelude/Filter.antt =====
-- The items of a list that pass a Boolean test, and how often.
use Prim.Native.Nat.{ℕ, zero, suc, ◌≤◌}
use mathlib.Core.Path.{◌≡◌, refl, ap}
use mathlib.Core.Logic.{inl, inr}
use mathlib.Core.Bool.{Bool, true, false, ◌&&◌}
use mathlib.Core.List.{List, [], ◌∷◌, ◌++◌, map}
use native.Mathlib.Omega.{arith}
use gps_tracking.Prelude.Tests.{if◌then◌else◌, Bool-cases}
use gps_tracking.Prelude.Lists.{length, take, All}

module _ {A : Type 0} where
  abbrev pub keep : (A → Bool) → List A → List A
  keep test [] = []
  keep test (x ∷ xs) = let rest = keep test xs in if test x then x ∷ rest else rest

  pub keep-append :
      (test : A → Bool) (xs ys : List A) → keep test (xs ++ ys) ≡ keep test xs ++ keep test ys
  keep-append test [] ys = refl
  keep-append test (x ∷ xs) ys = elim (Bool-cases (test x)) [
    | inl e ↦ rw e (ap (◌∷◌ x) (keep-append test xs ys))
    | inr e ↦ rw e (keep-append test xs ys)
  ]

  -- What passes the test.
  pub keep-All : (test : A → Bool) (xs : List A) → All (λ x. test x ≡ true) (keep test xs)
  keep-All test [] = tt
  keep-All test (x ∷ xs) = elim (Bool-cases (test x)) [
    | inl e ↦ rw e (e, keep-All test xs)
    | inr e ↦ rw e (keep-All test xs)
  ]

  -- A change of the items that makes every test fail, or that leaves the test and what it lets through.
  pub keep-map_none :
      (test : A → Bool) (f : A → A) (xs : List A)
      → ((x : A) → test (f x) ≡ false)
      → keep test (map f xs) ≡ []
  keep-map_none test f [] h = refl
  keep-map_none test f (x ∷ xs) h = rw (h x) (keep-map_none test f xs h)

  pub keep-map_same :
      (test : A → Bool) (f : A → A) (xs : List A)
      → ((x : A) → test (f x) ≡ test x)
      → ((x : A) → test x ≡ true → f x ≡ x)
      → keep test (map f xs) ≡ keep test xs
  keep-map_same test f [] h k = refl
  keep-map_same test f (x ∷ xs) h k = elim (Bool-cases (test x)) [
    | inl e ↦ rw (h x, e, k x e) (ap (◌∷◌ x) (keep-map_same test f xs h k))
    | inr e ↦ rw (h x, e) (keep-map_same test f xs h k)
  ]

  pub length-keep_le : (test : A → Bool) (xs : List A) → length (keep test xs) ≤ length xs
  length-keep_le test [] = omega arith
  length-keep_le test (x ∷ xs) = ground (arith, length-keep_le test xs)

module _ {A B : Type 0} where
  pub map-keep :
      (test : A → Bool) (test' : B → Bool) (f : A → B) (xs : List A)
      → ((x : A) → test' (f x) ≡ test x)
      → map f (keep test xs) ≡ keep test' (map f xs)
  map-keep test test' f [] h = refl
  map-keep test test' f (x ∷ xs) h = elim (Bool-cases (test x)) [
    | inl e ↦ rw (h x, e) (ap (◌∷◌ (f x)) (map-keep test test' f xs h))
    | inr e ↦ rw (h x, e) (map-keep test test' f xs h)
  ]

  pub take-map : (n : ℕ) (f : A → B) (xs : List A) → take n (map f xs) ≡ map f (take n xs)
  take-map zero f xs = refl
  take-map (suc n) f [] = refl
  take-map (suc n) f (x ∷ xs) = ap (◌∷◌ (f x)) (take-map n f xs)

  pub map-append : (f : A → B) (xs ys : List A) → map f (xs ++ ys) ≡ map f xs ++ map f ys
  map-append f [] ys = refl
  map-append f (x ∷ xs) ys = ap (◌∷◌ (f x)) (map-append f xs ys)

  -- A change of the items on either side of a map.
  pub map_comm :
      (f : A → B) (g : A → A) (h : B → B) (xs : List A)
      → ((x : A) → f (g x) ≡ h (f x))
      → map f (map g xs) ≡ map h (map f xs)
  map_comm f g h [] e = refl
  map_comm f g h (x ∷ xs) e = rw (e x) (ap (◌∷◌ (h (f x))) (map_comm f g h xs e))

  pub map_factor :
      (f : A → B) (g : A → B) (h : B → B) (xs : List A)
      → ((x : A) → g x ≡ h (f x))
      → map g xs ≡ map h (map f xs)
  map_factor f g h [] e = refl
  map_factor f g h (x ∷ xs) e = rw (e x) (ap (◌∷◌ (h (f x))) (map_factor f g h xs e))

module _ {A : Type 0} where
  -- One test after the other.
  pub keep_both :
      (p q r : A → Bool) (xs : List A)
      → ((x : A) → r x ≡ (p x && q x))
      → keep r xs ≡ keep q (keep p xs)
  keep_both p q r [] h = refl
  keep_both p q r (x ∷ xs) h = elim (Bool-cases (p x)) [
    | inl e ↦ elim (Bool-cases (q x)) [
      | inl k ↦ rw (h x, e, k) (ap (◌∷◌ x) (keep_both p q r xs h))
      | inr k ↦ rw (h x, e, k) (keep_both p q r xs h)
    ]
    | inr e ↦ rw (h x, e) (keep_both p q r xs h)
  ]
