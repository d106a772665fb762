-- ===== src/Api/Alerts/Router/Paging.antt =====
-- The pages of `list_alerts` of api/routers/alerts.py.
use gps_tracking.Prelude.{
  ℕ, zero, suc, ◌+◌, ◌-◌, ◌*◌, ◌/◌, ◌≤◌, ◌≡◌, refl, sym, ap, ◌∙◌, max, List, [], ◌∷◌, ◌++◌, map,
  keep, length, take, drop, arith, take-length, map-append,
}
use native.Mathlib.Nat.{lt-div-mul-add, max-eq_right}
use native.Mathlib.Numerals.{unary_clauses}
use gps_tracking.Api.Http.{Reply, ok}
use gps_tracking.Api.Account.{AuthenticatedUser}
use gps_tracking.Api.Alerts as Repository
use gps_tracking.Api.Alerts.{Alert, Row, Alerts, Query, matches, visible}
use gps_tracking.Api.Alerts.Router.{
  viewer_of, check_filter, AlertPage, page_count, kinds_or_none, list_alerts,
}

module _ {A : Type 0} where
  take_add : (m n : ℕ) (xs : List A) → take (m + n) xs ≡ take m xs ++ take n (drop m xs)
  take_add zero n xs = let e : 0 + n ≡ n = omega arith in ap (λ k. take k xs) e
  take_add (suc m) zero [] = simp unary_clauses refl
  take_add (suc m) (suc n) [] = simp unary_clauses refl
  take_add (suc m) n (x ∷ xs) =
      let e : suc m + n ≡ suc (m + n) = omega arith in
      ap (λ k. take k (x ∷ xs)) e ∙ ap (◌∷◌ x) (take_add m n xs)

  drop_add : (m n : ℕ) (xs : List A) → drop n (drop m xs) ≡ drop (m + n) xs
  drop_add zero n xs = let e : n ≡ 0 + n = omega arith in ap (λ k. drop k xs) e
  drop_add (suc m) zero [] = simp unary_clauses refl
  drop_add (suc m) (suc n) [] = simp unary_clauses refl
  drop_add (suc m) n (x ∷ xs) =
      let e : suc (m + n) ≡ suc m + n = omega arith in drop_add m n xs ∙ ap (λ k. drop k (x ∷ xs)) e

  -- `count` pages of `size` from an offset on, one after the other.
  abbrev pub pages_from : ℕ → ℕ → ℕ → List A → List A
  pages_from size offset zero xs = []
  pages_from size offset (suc count) xs =
      take size (drop offset xs) ++ pages_from size (offset + size) count xs

  pages_from-take :
      (size offset count : ℕ) (xs : List A)
      → pages_from size offset count xs ≡ take (count * size) (drop offset xs)
  pages_from-take size offset zero xs =
      let e : 0 ≡ 0 * size = omega arith in ap (λ k. take k (drop offset xs)) e
  pages_from-take size offset (suc count) xs =
      ap (◌++◌ (take size (drop offset xs))) (
        pages_from-take size (offset + size) count xs
        ∙ ap (take (count * size)) (sym (drop_add offset size xs)))
      ∙ sym (take_add size (count * size) (drop offset xs))
      ∙ ap (λ (n : ℕ). take n (drop offset xs)) (omega arith)

page_count_enough : (total size : ℕ) → 1 ≤ size → total ≤ page_count total size * size
unfolding page_count
page_count_enough total size h =
    let quotient = (total + (size - 1)) / size in
    let rounded : total ≤ quotient * size =
      omega (arith, h, lt-div-mul-add {a = total + (size - 1)} {b = size} h) in
    at_least_one quotient rounded
  where
    at_least_one : (q : ℕ) → total ≤ q * size → total ≤ max 1 q * size
    at_least_one zero k = omega (arith, k)
    at_least_one (suc q) k = rw (max-eq_right {n = 1} {m = suc q} (omega arith)) k

abbrev pub entries_of : Reply AlertPage → List Alert
entries_of (ok p) = p.entries
entries_of refusal = []

-- What an answer announces: the number of its pages, and of all the alerts on them.
abbrev pub pages_of : Reply AlertPage → ℕ
pages_of (ok p) = p.pages
pages_of refusal = 0

abbrev pub total_of : Reply AlertPage → ℕ
total_of (ok p) = p.total
total_of refusal = 0

module _ (r : Alerts) (u : AuthenticatedUser) (q : Query) (size : ℕ) where
  -- What a client reads that asks for `count` pages, from page `page + 1` on.
  abbrev pub read_pages : ℕ → ℕ → List Alert
  read_pages page zero = []
  read_pages page (suc count) =
      entries_of (list_alerts r u q (page + 1) size) ++ read_pages (page + 1) count

  abbrev pub all_matching : List Row
  all_matching =
      keep (matches (record q { kinds = kinds_or_none q.kinds })) (visible r (viewer_of u))

  list_alerts-entries :
      (page : ℕ)
      → check_filter u q.device_id ≡ ok tt
      → entries_of (list_alerts r u q (page + 1) size)
        ≡ map (λ (x : Row). x.alert) (take size (drop (page * size) all_matching))
  unfolding list_alerts Repository.list_alerts
  list_alerts-entries page c =
      rw (list_alerts, c)
        (ap (λ (n : ℕ). map (λ (x : Row). x.alert) (take size (drop (n * size) all_matching)))
          (omega arith))

  read_pages-pages_from :
      (page count : ℕ)
      → check_filter u q.device_id ≡ ok tt
      → read_pages page count
        ≡ map (λ (x : Row). x.alert) (pages_from size (page * size) count all_matching)
  read_pages-pages_from page zero c = refl
  read_pages-pages_from page (suc count) c =
      let next : (page + 1) * size ≡ page * size + size = omega arith in
      rw
        (
          list_alerts-entries page c,
          read_pages-pages_from (page + 1) count c,
          next,
          map-append (λ (x : Row). x.alert) (take size (drop (page * size) all_matching))
              (pages_from size (page * size + size) count all_matching),
        )
        refl

  list_alerts-announced :
      (page : ℕ)
      → check_filter u q.device_id ≡ ok tt
      → (pages_of (list_alerts r u q page size) ≡ page_count (length all_matching) size)
        × (total_of (list_alerts r u q page size) ≡ length all_matching)
  unfolding list_alerts Repository.list_alerts
  list_alerts-announced page c = rw (list_alerts, c) (refl, refl)

  read_pages-all :
      check_filter u q.device_id ≡ ok tt
      → 1 ≤ size
      → read_pages 0 (page_count (length all_matching) size)
        ≡ map (λ (x : Row). x.alert) all_matching
  read_pages-all c h =
      let count = page_count (length all_matching) size in
      let first : 0 * size ≡ 0 = omega arith in
      let whole : take (count * size) (drop (0 * size) all_matching) ≡ all_matching =
        ap (λ (n : ℕ). take (count * size) (drop n all_matching)) first
        ∙ take-length (count * size) all_matching
            (page_count_enough (length all_matching) size h) in
      read_pages-pages_from 0 count c
      ∙ ap (map (λ (x : Row). x.alert)) (pages_from-take size (0 * size) count all_matching ∙ whole)

  -- For a caller who may ask, reading as many pages as the answer for any one of the pages announces,
  -- from the first on, gives every alert that the repository's tests of sight and filters let through,
  -- each once and in the repository's order; and the total that the answer announces is their number.
  pub list_alerts-pages :
      (page : ℕ)
      → check_filter u q.device_id ≡ ok tt
      → 1 ≤ size
      → (read_pages 0 (pages_of (list_alerts r u q page size))
          ≡ map (λ (x : Row). x.alert) all_matching)
        × (total_of (list_alerts r u q page size) ≡ length all_matching)
  list_alerts-pages page c h =
      let announced = list_alerts-announced page c in
      (ap (read_pages 0) announced.0 ∙ read_pages-all c h, announced.1)
