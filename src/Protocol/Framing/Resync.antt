-- ===== src/Protocol/Framing/Resync.antt =====
-- `resync` by recursion on the buffer, and what it does when more bytes follow.
use gps_tracking.Prelude.{
  ℕ, suc, ◌-◌, ◌≤◌, ◌≡◌, refl, ap, ◌∙◌, ◌⊎◌, inl, inr, Bool, true, false, ◌&&◌, ◌||◌, Option, none,
  some, [], ◌∷◌, ◌++◌, length, ◌==◌, if◌then◌else◌, arith, Bool-cases, ==_iff,
}
use mathlib.Core.Option
use gps_tracking.Protocol.Bytes.{Bytes}
use gps_tracking.Protocol.Constants.{start_short, start_long}
use gps_tracking.Protocol.Framing.{bytes_eq, starts_with, find, earliest, keep_last, cut_at, resync}

abbrev pub is_start : ℕ → Bool
is_start b = b == 0x78 || b == 0x79

-- Drop bytes until two equal start bytes stand in front.
pub skip_to_marker : Bytes → Bytes
skip_to_marker [] = []
skip_to_marker (a ∷ []) = if is_start a then a ∷ [] else []
skip_to_marker (a ∷ b ∷ rest) =
    let later = skip_to_marker (b ∷ rest) in if is_start a && a == b then a ∷ b ∷ rest else later

earliest-map :
    (i j : Option ℕ)
    → earliest (Option.map suc i) (Option.map suc j) ≡ Option.map suc (earliest i j)
unfolding earliest
earliest-map none j = refl
earliest-map (some i) none = refl
earliest-map (some i) (some j) = ap some (omega arith)

keep_last-cons : (a b : ℕ) (rest : Bytes) → keep_last (a ∷ b ∷ rest) ≡ keep_last (b ∷ rest)
unfolding keep_last
keep_last-cons a b rest =
    let e : suc (suc (length rest)) - 1 ≡ suc (suc (length rest) - 1) = omega arith in rw e

cut_at-suc :
    (a b : ℕ) (rest : Bytes) (i : Option ℕ)
    → cut_at (Option.map suc i) (a ∷ b ∷ rest) ≡ cut_at i (b ∷ rest)
unfolding cut_at
cut_at-suc a b rest none = keep_last-cons a b rest
cut_at-suc a b rest (some i) = refl

resync-one : (a : ℕ) → resync (a ∷ []) ≡ skip_to_marker (a ∷ [])
unfolding resync cut_at keep_last find starts_with earliest bytes_eq skip_to_marker
resync-one a = elim (Bool-cases (a == 0x78)) [
  | inl e ↦ let d : a ≡ 0x78 = (==_iff a 0x78).0 e in rw d
  | inr n ↦ elim (Bool-cases (a == 0x79)) [
    | inl e ↦ let d : a ≡ 0x79 = (==_iff a 0x79).0 e in rw d
    | inr k ↦
        let short : (0x78 == a) ≡ false = ground arith in
        let long : (0x79 == a) ≡ false = ground arith in rw (short, long, n, k)
  ]
]

-- Whether a two-byte marker of equal bytes stands in front.
starts_with-pair :
    (m a b : ℕ) (rest : Bytes) → starts_with (m ∷ m ∷ []) (a ∷ b ∷ rest) ≡ (a == m && b == m)
unfolding starts_with
starts_with-pair m a b rest = ground arith

find_here :
    (marker : Bytes) (b : ℕ) (rest : Bytes)
    → starts_with marker (b ∷ rest) ≡ true
    → find marker (b ∷ rest) ≡ some 0
unfolding find
find_here marker b rest h = rw h

find_later :
    (marker : Bytes) (b : ℕ) (rest : Bytes)
    → starts_with marker (b ∷ rest) ≡ false
    → find marker (b ∷ rest) ≡ Option.map suc (find marker rest)
unfolding find
find_later marker b rest h = rw h

earliest-zero : (j : Option ℕ) → earliest (some 0) j ≡ some 0
unfolding earliest
earliest-zero none = refl
earliest-zero (some j) = ap some (omega arith)

earliest-zero_right : (i : Option ℕ) → earliest i (some 0) ≡ some 0
unfolding earliest
earliest-zero_right none = refl
earliest-zero_right (some i) = ap some (omega arith)

is_pair_cases :
    (a b : ℕ)
    → (is_start a && a == b) ≡ true
    → ((a == 0x78 && b == 0x78) ≡ true) ⊎ ((a == 0x79 && b == 0x79) ≡ true)
is_pair_cases a b h = ground arith

no_pair :
    (a b : ℕ)
    → (is_start a && a == b) ≡ false
    → ((a == 0x78 && b == 0x78) ≡ false) × ((a == 0x79 && b == 0x79) ≡ false)
no_pair a b h = ground arith

-- Bytes that begin with a marker stay.
pub resync-marker :
    (a b : ℕ) (rest : Bytes) → (is_start a && a == b) ≡ true → resync (a ∷ b ∷ rest) ≡ a ∷ b ∷ rest
unfolding resync cut_at
resync-marker a b rest h = elim (is_pair_cases a b h) [
  | inl short ↦ rw (
    find_here start_short a (b ∷ rest) (starts_with-pair 0x78 a b rest ∙ short),
    earliest-zero (find start_long (a ∷ b ∷ rest)),
  )
  | inr long ↦ rw (
    find_here start_long a (b ∷ rest) (starts_with-pair 0x79 a b rest ∙ long),
    earliest-zero_right (find start_short (a ∷ b ∷ rest)),
  )
]

resync-skip :
    (a b : ℕ) (rest : Bytes)
    → (is_start a && a == b) ≡ false
    → resync (a ∷ b ∷ rest) ≡ resync (b ∷ rest)
unfolding resync
resync-skip a b rest h =
    let (short, long) = no_pair a b h in
    rw
      (
        find_later start_short a (b ∷ rest) (starts_with-pair 0x78 a b rest ∙ short),
        find_later start_long a (b ∷ rest) (starts_with-pair 0x79 a b rest ∙ long),
        earliest-map (find start_short (b ∷ rest)) (find start_long (b ∷ rest)),
      )
      (cut_at-suc a b rest _)

pub resync-eq-skip_to_marker : (buf : Bytes) → resync buf ≡ skip_to_marker buf
unfolding skip_to_marker
resync-eq-skip_to_marker [] = unfold resync cut_at keep_last find earliest bytes_eq in refl
resync-eq-skip_to_marker (a ∷ []) = resync-one a
resync-eq-skip_to_marker (a ∷ b ∷ rest) = elim (Bool-cases (is_start a && a == b)) [
  | inl here ↦ resync-marker a b rest here ∙ rw here
  | inr later ↦ resync-skip a b rest later ∙ resync-eq-skip_to_marker (b ∷ rest) ∙ rw later
]

-- A buffer that begins at a marker.
unfoldable pub at_marker : Bytes → Bool
at_marker [] = false
at_marker (a ∷ []) = false
at_marker (a ∷ b ∷ rest) = is_start a && a == b

-- What a lone byte leaves when more bytes come.
skip-lone :
    (a : ℕ) (more : Bytes) → is_start a ≡ false → skip_to_marker (a ∷ more) ≡ skip_to_marker more
unfolding skip_to_marker
skip-lone a [] h = rw h
skip-lone a (b ∷ more) h = rw h

-- Bytes that follow are not looked at where a marker was found, and otherwise the search starts
-- over from what was kept.
abbrev pub Resumes : Bytes → Bytes → Type 0
Resumes buf more =
    ((at_marker (resync buf) ≡ true) × (resync (buf ++ more) ≡ resync buf ++ more))
    ⊎ ((at_marker (resync buf) ≡ false) × (resync (buf ++ more) ≡ resync (resync buf ++ more)))

abbrev Skips : Bytes → Bytes → Type 0
Skips buf more =
    ((at_marker (skip_to_marker buf) ≡ true)
      × (skip_to_marker (buf ++ more) ≡ skip_to_marker buf ++ more))
    ⊎ ((at_marker (skip_to_marker buf) ≡ false)
        × (skip_to_marker (buf ++ more) ≡ skip_to_marker (skip_to_marker buf ++ more)))

skip-append : (buf more : Bytes) → Skips buf more
unfolding skip_to_marker at_marker
skip-append [] more = inr (refl, refl)
skip-append (a ∷ []) more = elim (Bool-cases (is_start a)) [
  | inl start ↦ rw start (inr (refl, refl))
  | inr other ↦ rw (other, skip-lone a more other) (inr (refl, refl))
]
skip-append (a ∷ b ∷ rest) more = elim (Bool-cases (is_start a && a == b)) [
  | inl here ↦ rw here (inl (here, refl))
  | inr later ↦ rw later (skip-append (b ∷ rest) more)
]

pub resync-append : (buf more : Bytes) → Resumes buf more
resync-append buf more =
    rw
      (
        resync-eq-skip_to_marker buf,
        resync-eq-skip_to_marker (buf ++ more),
        resync-eq-skip_to_marker (skip_to_marker buf ++ more),
      )
      (skip-append buf more)

length-skip_to_marker : (buf : Bytes) → length (skip_to_marker buf) ≤ length buf
unfolding skip_to_marker
length-skip_to_marker [] = omega arith
length-skip_to_marker (a ∷ []) = ground arith
length-skip_to_marker (a ∷ b ∷ rest) = ground (arith, length-skip_to_marker (b ∷ rest))

pub length-resync : (buf : Bytes) → length (resync buf) ≤ length buf
length-resync buf = rw resync-eq-skip_to_marker (length-skip_to_marker buf)

pub resync-at_marker :
    (buf more : Bytes) → at_marker buf ≡ true → resync (buf ++ more) ≡ buf ++ more
unfolding at_marker
resync-at_marker [] more h = cc
resync-at_marker (a ∷ []) more h = cc
resync-at_marker (a ∷ b ∷ rest) more h = resync-marker a b (rest ++ more) h

pub resync-nil : resync [] ≡ []
unfolding resync cut_at keep_last find earliest bytes_eq
resync-nil = refl
