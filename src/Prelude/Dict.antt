-- ===== src/Prelude/Dict.antt =====
-- A Python dict: entries in insertion order, under keys with a decided equality.
use mathlib.Core.Path.{◌≡◌, refl, ap, ◌∙◌}
use mathlib.Core.Logic.{◌↔◌, inl, inr}
use mathlib.Core.Bool.{Bool, true, false}
use mathlib.Core.Option.{Option, none, some}
use mathlib.Core.List.{List, [], ◌∷◌}
use native.Mathlib.Omega.{arith}
use Prim.Native.Nat.{ℕ, ◌+◌, ◌<◌}
use gps_tracking.Prelude.Lists.{All}
use gps_tracking.Prelude.Tests.{if◌then◌else◌, Bool-cases, ◌==◌, ==_iff}

-- The test of a key type.
pub record Keys (K : Type 0) : Type 0 where
  pub same : K → K → Bool
  pub same_iff : (a b : K) → (same a b ≡ true) ↔ (a ≡ b)

abbrev pub nat_keys : Keys ℕ
nat_keys = record { same = ◌==◌; same_iff = ==_iff }

module _ {K : Type 0} (keys : Keys K) {V : Type 0} where
  unfoldable pub lookup : List (K × V) → K → Option V
  lookup [] k = none
  lookup ((j, v) ∷ d) k = if keys.same j k then some v else lookup d k

  -- `d[k] = v` keeps the place of a key that is there.
  unfoldable pub store : List (K × V) → K → V → List (K × V)
  store [] k v = (k, v) ∷ []
  store ((j, w) ∷ d) k v =
      let rest = store d k v in if keys.same j k then (j, v) ∷ d else (j, w) ∷ rest

  -- `d.pop(k, None)`
  unfoldable pub erase : List (K × V) → K → List (K × V)
  erase [] k = []
  erase ((j, w) ∷ d) k = let rest = erase d k in if keys.same j k then rest else (j, w) ∷ rest

  pub lookup-store :
      (d : List (K × V)) (k j : K) (v : V)
      → lookup (store d k v) j ≡ (if keys.same k j then some v else lookup d j)
  unfolding lookup store
  lookup-store [] k j v = refl
  lookup-store ((i, w) ∷ d) k j v =
      ground (arith, keys.same_iff i k, keys.same_iff i j, keys.same_iff k j, lookup-store d k j v)

  pub lookup-erase :
      (d : List (K × V)) (k j : K)
      → lookup (erase d k) j ≡ (if keys.same k j then none else lookup d j)
  unfolding lookup erase
  lookup-erase [] k j = ground arith
  lookup-erase ((i, w) ∷ d) k j =
      ground (arith, keys.same_iff i k, keys.same_iff i j, keys.same_iff k j, lookup-erase d k j)

  -- The same by whether the keys are the same.
  pub lookup-store_hit :
      (d : List (K × V)) (k j : K) (v : V) → keys.same k j ≡ true → lookup (store d k v) j ≡ some v
  lookup-store_hit d k j v e = lookup-store d k j v ∙ rw e refl

  pub lookup-store_miss :
      (d : List (K × V)) (k j : K) (v : V)
      → keys.same k j ≡ false
      → lookup (store d k v) j ≡ lookup d j
  lookup-store_miss d k j v e = lookup-store d k j v ∙ rw e refl

  pub lookup-erase_hit :
      (d : List (K × V)) (k j : K) → keys.same k j ≡ true → lookup (erase d k) j ≡ none
  lookup-erase_hit d k j e = lookup-erase d k j ∙ rw e refl

  pub lookup-erase_miss :
      (d : List (K × V)) (k j : K) → keys.same k j ≡ false → lookup (erase d k) j ≡ lookup d j
  lookup-erase_miss d k j e = lookup-erase d k j ∙ rw e refl

  -- A key that was not there goes without a trace.
  pub erase_absent : (d : List (K × V)) (k : K) → lookup d k ≡ none → erase d k ≡ d
  unfolding lookup erase
  erase_absent [] k e = refl
  erase_absent ((i, w) ∷ d) k e = elim (Bool-cases (keys.same i k)) [
    | inl same ↦ absurd (ground (arith, same, e))
    | inr same ↦ rw same (ap (◌∷◌ (i, w)) (erase_absent d k (ground (arith, same, e))))
  ]

  pub erase-store :
      (d : List (K × V)) (k : K) (v : V) → lookup d k ≡ none → erase (store d k v) k ≡ d
  unfolding lookup store erase
  erase-store [] k v e = rw ((keys.same_iff k k).1 refl) refl
  erase-store ((i, w) ∷ d) k v e = elim (Bool-cases (keys.same i k)) [
    | inl same ↦ absurd (ground (arith, same, e))
    | inr same ↦ rw (same, same) (ap (◌∷◌ (i, w)) (erase-store d k v (ground (arith, same, e))))
  ]

-- The ids that were given out.
abbrev pub IsFresh : {V : Type 0} → ℕ → List (ℕ × V) → Type 0
IsFresh {V} next_id d = All (λ (e : ℕ × V). e.0 < next_id) d

module _ {V : Type 0} where
  pub lookup-IsFresh : (n : ℕ) (d : List (ℕ × V)) → IsFresh n d → lookup nat_keys d n ≡ none
  unfolding lookup
  lookup-IsFresh n [] h = refl
  lookup-IsFresh n ((k, v) ∷ d) h = ground (arith, h.0, lookup-IsFresh n d h.1)

  pub IsFresh-store :
      (n k : ℕ) (v : V) (d : List (ℕ × V)) → IsFresh n d → k < n → IsFresh n (store nat_keys d k v)
  unfolding store
  IsFresh-store n k v [] h l = (l, tt)
  IsFresh-store n k v ((j, w) ∷ d) h l = elim (Bool-cases (j == k)) [
    | inl e ↦ rw e (h.0, h.1)
    | inr e ↦ rw e (h.0, IsFresh-store n k v d h.1 l)
  ]

  pub IsFresh-suc : (n : ℕ) (d : List (ℕ × V)) → IsFresh n d → IsFresh (n + 1) d
  IsFresh-suc n [] h = tt
  IsFresh-suc n ((k, v) ∷ d) h = (omega (arith, h.0), IsFresh-suc n d h.1)

  -- A key that is there is an old one.
  pub lookup-IsFresh_lt :
      (n k : ℕ) (v : V) (d : List (ℕ × V)) → IsFresh n d → lookup nat_keys d k ≡ some v → k < n
  unfolding lookup
  lookup-IsFresh_lt n k v [] h e = ground arith
  lookup-IsFresh_lt n k v ((j, w) ∷ d) h e = ground (arith, h.0, e, lookup-IsFresh_lt n k v d h.1)
