-- ===== src/Api/Throttle/Window.antt =====
-- The sliding window: who has to wait, and how long.
use gps_tracking.Prelude.{
  ℕ, suc, ◌+◌, ◌-◌, ◌≤◌, ◌<◌, ◌≡◌, ◌↔◌, refl, sym, ap, true, false, List, [], ◌∷◌, length, ltb, leb,
  if◌then◌else◌, max, arith, Bool-cases, inl, inr,
}
use gps_tracking.Protocol.Codec.Cell.{Text}
use gps_tracking.Api.Throttle.{
  Key, source, username, key_eq, Failures, LoginThrottle, times_of, set_times, drop_old,
  seconds_left, wait_times, wait, retry_after,
}

-- The failures less than a window old.
pub count_recent : ℕ → ℕ → List ℕ → ℕ
count_recent window now [] = 0
count_recent window now (t ∷ times) =
    let rest = count_recent window now times in if leb window (now - t) then rest else suc rest

-- Times in the order in which they were appended, none of them after `now`.
abbrev pub InOrder : ℕ → List ℕ → Type 0
InOrder now [] = Unit
InOrder now (t ∷ []) = t ≤ now
InOrder now (t ∷ u ∷ times) = (t ≤ u) × InOrder now (u ∷ times)

InOrder-tail : (now t : ℕ) (times : List ℕ) → InOrder now (t ∷ times) → InOrder now times
InOrder-tail now t [] h = tt
InOrder-tail now t (u ∷ times) h = h.1

all_recent :
    (window now t : ℕ) (times : List ℕ)
    → leb window (now - t) ≡ false
    → InOrder now (t ∷ times)
    → count_recent window now (t ∷ times) ≡ length (t ∷ times)
unfolding count_recent
all_recent window now t [] e h = rw e refl
all_recent window now t (u ∷ times) e h =
    let later : leb window (now - u) ≡ false = ground (arith, h.0, e) in
    rw e (ap suc (all_recent window now u times later h.1))

-- In order, the loop at the front of the deque removes exactly what is too old.
length-drop_old :
    (window now : ℕ) (times : List ℕ)
    → InOrder now times
    → length (drop_old window now times) ≡ count_recent window now times
unfolding drop_old count_recent
length-drop_old window now [] h = refl
length-drop_old window now (t ∷ times) h = elim (Bool-cases (leb window (now - t))) [
  | inl e ↦ rw e (length-drop_old window now times (InOrder-tail now t times h))
  | inr e ↦
      let whole = all_recent window now t times e h in let same = rw e at whole in rw e (sym same)
]

seconds_left_iff :
    (window limit now : ℕ) (times : List ℕ)
    → 1 ≤ limit
    → (seconds_left window limit now times ≡ 0) ↔ (length times < limit)
unfolding seconds_left
seconds_left_iff window limit now [] h = (λ _. omega arith, λ _. refl)
seconds_left_iff window limit now (t ∷ times) h =
    elim (Bool-cases (ltb (length (t ∷ times)) limit)) [
      | inl e ↦ rw e (λ _. ground (arith, e), λ _. refl)
      | inr e ↦ rw e (λ z. absurd (omega arith), λ z. absurd (ground (arith, e)))
    ]

-- One key lets a sign-in through exactly where fewer failures than its limit are less than a window old.
pub wait_times_iff :
    (window limit now : ℕ) (times : List ℕ)
    → 1 ≤ limit
    → InOrder now times
    → (wait_times window limit now times ≡ 0) ↔ (count_recent window now times < limit)
unfolding wait_times
wait_times_iff window limit now times h sorted =
    let (to, from) = seconds_left_iff window limit now (drop_old window now times) h in
    let same = length-drop_old window now times sorted in
    (λ z. omega (arith, to z, same), λ z. from (omega (arith, z, same)))

-- No one waits longer than the window and a second.
pub wait_times_le :
    (window limit now : ℕ) (times : List ℕ) → wait_times window limit now times ≤ window + 1
unfolding wait_times
wait_times_le window limit now times = go (drop_old window now times)
  where
    go : (left : List ℕ) → seconds_left window limit now left ≤ window + 1
    go [] = unfold seconds_left in omega arith
    go (t ∷ left) = unfold seconds_left in ground arith

times_of-set_times :
    (m : Failures) (k key : Key) (new : List ℕ)
    → key_eq k key ≡ false
    → ((j : Key) → key_eq j k ≡ true → key_eq j key ≡ false)
    → times_of (set_times m k new) key ≡ times_of m key
unfolding times_of set_times
times_of-set_times [] k key new e apart = refl
times_of-set_times ((j, times) ∷ m) k key new e apart = elim (Bool-cases (key_eq j k)) [
  | inl ek ↦ rw (ek, apart j ek) refl
  | inr ek ↦ rw ek (
      ap (λ (rest : List ℕ). if key_eq j key then times else rest)
        (times_of-set_times m k key new e apart))
]

source_apart :
    (user address : Text) (j : Key)
    → key_eq j (source user address) ≡ true
    → key_eq j (username user) ≡ false
unfolding key_eq
source_apart user address (source u a) h = refl
source_apart user address (username u) h = cc

max_zero_iff : (a b : ℕ) → (max a b ≡ 0) ↔ ((a ≡ 0) × (b ≡ 0))
max_zero_iff a b = (λ e. (omega arith, omega arith), λ e. omega (arith, e.0, e.1))

-- A sign-in may be tried now exactly where both counts are below their limits: the failures of this user
-- from this address, and those of this user from anywhere, each less than a window old.
pub retry_after_iff :
    (normal : Text → Text) (t : LoginThrottle) (now : ℕ) (name address : Text)
    → 1 ≤ t.per_source
    → 1 ≤ t.per_username
    → InOrder now (times_of t.failures (source (normal name) address))
    → InOrder now (times_of t.failures (username (normal name)))
    → ((retry_after normal t now name address).0 ≡ 0) ↔ (
        (count_recent t.window now (times_of t.failures (source (normal name) address))
          < t.per_source)
        × (count_recent t.window now (times_of t.failures (username (normal name)))
            < t.per_username))
unfolding retry_after wait key_eq
retry_after_iff normal t now name address hs hu sorted_s sorted_u =
    let user = normal name in
    let (to, from) =
      wait_times_iff t.window t.per_source now (times_of t.failures (source user address)) hs
        sorted_s in
    let (to', from') =
      wait_times_iff t.window t.per_username now (times_of t.failures (username user)) hu
        sorted_u in
    rw
      (times_of-set_times t.failures (source user address) (username user)
        (drop_old t.window now (times_of t.failures (source user address))) refl
        (source_apart user address))
      (
        λ e. let (a, b) = (max_zero_iff _ _).0 e in (to a, to' b),
        λ e. (max_zero_iff _ _).1 (from e.0, from' e.1),
      )
