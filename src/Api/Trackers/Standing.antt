-- ===== src/Api/Trackers/Standing.antt =====
-- What the allowlist promises: each tracker is allowed, waits for an administrator, or is unknown.
use gps_tracking.Prelude.{
  ℕ, ◌+◌, ◌≡◌, refl, sym, Bool, true, false, Option, none, some, if◌then◌else◌, Bool-cases, inl,
  inr,
}
use gps_tracking.Prelude.Dict.{
  lookup, erase, lookup-store_hit, lookup-store_miss, lookup-erase_hit, lookup-erase_miss,
}
use gps_tracking.Protocol.Codec.Cell.{Text}
use gps_tracking.Gateway.Text.{text_eq, text_keys, text_eq_refl, text_eq_iff}
use gps_tracking.Api.Trackers.{
  AllowedTracker, LoginAttempt, Trackers, admit_entry, allow, disallow, dismiss_attempt,
  next_attempt, record_attempt, admit_unknown, admit_known, gateway_admit, set_auto_approve,
}

-- `waiting n` has been refused `n` times.
pub data Standing : Type 0 where
  unknown allowed : Standing
  waiting : ℕ → Standing

abbrev pub standing_of : Option AllowedTracker → Option LoginAttempt → Standing
standing_of (some a) attempt = allowed
standing_of none (some attempt) = waiting attempt.attempts
standing_of none none = unknown

abbrev pub standing : Trackers → Text → Standing
standing t id = standing_of (lookup text_keys t.allowed id) (lookup text_keys t.attempts id)

-- No tracker is both allowed and waiting.
abbrev pub Apart : Option AllowedTracker → Option LoginAttempt → Type 0
Apart none attempt = Unit
Apart (some a) none = Unit
Apart (some a) (some attempt) = ⊥

abbrev pub IsApart : Trackers → Type 0
IsApart t = (id : Text) → Apart (lookup text_keys t.allowed id) (lookup text_keys t.attempts id)

-- What an administrator asks for, or a tracker that logs in.
pub data Request : Type 0 where
  allow_it disallow_it dismiss_it login : Request
  approve_newcomers : Bool → Request

pub step : Trackers → ℕ → Text → Option Text → Request → Trackers
step t now id who allow_it = (allow t now id who).1
step t now id who disallow_it = (disallow t id).1
step t now id who dismiss_it = (dismiss_attempt t id).1
step t now id who login = (gateway_admit t now id who).1
step t now id who (approve_newcomers enabled) = (set_auto_approve t now enabled who).1

-- The specification, for the tracker that the request names.
pub refused : Bool → Standing → Standing
refused auto allowed = allowed
refused true (waiting n) = allowed
refused true unknown = allowed
refused false (waiting n) = waiting (n + 1)
refused false unknown = waiting 1

pub spec : Bool → Request → Standing → Standing
spec auto allow_it s = allowed
spec auto disallow_it allowed = unknown
spec auto disallow_it s = s
spec auto dismiss_it (waiting n) = unknown
spec auto dismiss_it s = s
spec auto login s = refused auto s
spec auto (approve_newcomers enabled) s = s

-- What holds of tracker `j` afterwards.
record After (t : Trackers) (j : Text) (s : Standing) : Type 0 where
  stands : standing t j ≡ s
  apart : Apart (lookup text_keys t.allowed j) (lookup text_keys t.attempts j)

after :
    (t : Trackers) (j : Text) (a : Option AllowedTracker) (w : Option LoginAttempt)
    → lookup text_keys t.allowed j ≡ a
    → lookup text_keys t.attempts j ≡ w
    → Apart a w
    → After t j (standing_of a w)
after t j a w ea ew h = rw (sym ea, sym ew) (record { stands = refl; apart = rw (ea, ew) h })

-- Another tracker than `id`.
module _ (t : Trackers) (now : ℕ) (id j : Text) (who : Option Text) (h : IsApart t)
    (e : text_eq id j ≡ false) where
  admit_entry-other :
      (new : AllowedTracker) (o : Option AllowedTracker)
      → new.device_id ≡ id
      → After
          (admit_entry (record t { attempts = erase text_keys t.attempts id }) new o).1
          j
          (standing t j)
  unfolding admit_entry
  admit_entry-other new none same =
      after _ j (lookup text_keys t.allowed j) (lookup text_keys t.attempts j)
        (lookup-store_miss text_keys t.allowed new.device_id j new (rw same e))
        (lookup-erase_miss text_keys t.attempts id j e) (h j)
  admit_entry-other new (some old) same =
      after _ j (lookup text_keys t.allowed j) (lookup text_keys t.attempts j) refl
        (lookup-erase_miss text_keys t.attempts id j e) (h j)

  admit_unknown-other : (auto : Bool) → After (admit_unknown t now id who auto).1 j (standing t j)
  unfolding admit_unknown record_attempt
  admit_unknown-other true =
      after _ j (lookup text_keys t.allowed j) (lookup text_keys t.attempts j)
        (lookup-store_miss text_keys t.allowed id j _ e)
        (lookup-erase_miss text_keys t.attempts id j e) (h j)
  admit_unknown-other false =
      after _ j (lookup text_keys t.allowed j) (lookup text_keys t.attempts j) refl
        (lookup-store_miss text_keys t.attempts id j _ e) (h j)

  admit_known-other :
      (o : Option AllowedTracker) → After (admit_known t now id who o).1 j (standing t j)
  unfolding admit_known
  admit_known-other none = admit_unknown-other t.settings.auto_approve
  admit_known-other (some x) = record { stands = refl; apart = h j }

  step-other : (r : Request) → After (step t now id who r) j (standing t j)
  unfolding step allow disallow dismiss_attempt gateway_admit set_auto_approve
  step-other allow_it = admit_entry-other _ (lookup text_keys t.allowed id) refl
  step-other disallow_it =
      after _ j (lookup text_keys t.allowed j) (lookup text_keys t.attempts j)
        (lookup-erase_miss text_keys t.allowed id j e) refl (h j)
  step-other dismiss_it =
      after _ j (lookup text_keys t.allowed j) (lookup text_keys t.attempts j) refl
        (lookup-erase_miss text_keys t.attempts id j e) (h j)
  step-other login = admit_known-other (lookup text_keys t.allowed id)
  step-other (approve_newcomers enabled) = record { stands = refl; apart = h j }

-- The tracker itself.
module _ (t : Trackers) (now : ℕ) (id : Text) (who : Option Text) (h : IsApart t) where
  admit_entry_self :
      (new : AllowedTracker) (o : Option AllowedTracker)
      → new.device_id ≡ id
      → lookup text_keys t.allowed id ≡ o
      → After
          (admit_entry (record t { attempts = erase text_keys t.attempts id }) new o).1
          id
          allowed
  unfolding admit_entry
  admit_entry_self new none same known =
      after _ id (some new) none
        (lookup-store_hit text_keys t.allowed new.device_id id new (rw same (text_eq_refl id)))
        (lookup-erase_hit text_keys t.attempts id id (text_eq_refl id)) tt
  admit_entry_self new (some old) same known =
      after _ id (some old) none known
        (lookup-erase_hit text_keys t.attempts id id (text_eq_refl id)) tt

  next_attempt_standing :
      (o : Option LoginAttempt)
      → standing_of none (some (next_attempt now id who o)) ≡ refused false (standing_of none o)
  unfolding next_attempt refused
  next_attempt_standing none = refl
  next_attempt_standing (some w) = refl

  admit_unknown_self :
      (auto : Bool)
      → lookup text_keys t.allowed id ≡ none
      → After
          (admit_unknown t now id who auto).1
          id
          (refused auto (standing_of none (lookup text_keys t.attempts id)))
  unfolding admit_unknown record_attempt refused
  admit_unknown_self true new = rw (newcomer (lookup text_keys t.attempts id)) (
      after _ id (some _) none (lookup-store_hit text_keys t.allowed id id _ (text_eq_refl id))
        (lookup-erase_hit text_keys t.attempts id id (text_eq_refl id)) tt)
    where
      newcomer : (o : Option LoginAttempt) → refused true (standing_of none o) ≡ allowed
      newcomer none = refl
      newcomer (some w) = refl
  admit_unknown_self false new = rw (sym (next_attempt_standing (lookup text_keys t.attempts id))) (
      after _ id none (some _) new (lookup-store_hit text_keys t.attempts id id _ (text_eq_refl id))
        tt)

  disallow_standing :
      (auto : Bool) (a : Option AllowedTracker) (w : Option LoginAttempt)
      → Apart a w
      → standing_of none w ≡ spec auto disallow_it (standing_of a w)
  unfolding spec
  disallow_standing auto (some x) none p = refl
  disallow_standing auto (some x) (some y) p = absurd p
  disallow_standing auto none none p = refl
  disallow_standing auto none (some y) p = refl

  dismiss_standing :
      (auto : Bool) (a : Option AllowedTracker) (w : Option LoginAttempt)
      → standing_of a none ≡ spec auto dismiss_it (standing_of a w)
  unfolding spec
  dismiss_standing auto (some x) w = refl
  dismiss_standing auto none none = refl
  dismiss_standing auto none (some y) = refl

  Apart-none : (a : Option AllowedTracker) → Apart a none
  Apart-none none = tt
  Apart-none (some x) = tt

  admit_known_self :
      (o : Option AllowedTracker)
      → lookup text_keys t.allowed id ≡ o
      → After (admit_known t now id who o).1 id (refused t.settings.auto_approve (standing t id))
  unfolding admit_known refused
  admit_known_self none known = rw known (admit_unknown_self t.settings.auto_approve known)
  admit_known_self (some x) known = record { stands = rw known refl; apart = h id }

  step_self :
      (r : Request)
      → After (step t now id who r) id (spec t.settings.auto_approve r (standing t id))
  unfolding step spec allow disallow dismiss_attempt gateway_admit set_auto_approve
  step_self allow_it = admit_entry_self _ (lookup text_keys t.allowed id) refl refl
  step_self disallow_it =
      rw
        (sym (
          disallow_standing t.settings.auto_approve (lookup text_keys t.allowed id)
            (lookup text_keys t.attempts id) (h id)))
        (after _ id none (lookup text_keys t.attempts id)
          (lookup-erase_hit text_keys t.allowed id id (text_eq_refl id)) refl tt)
  step_self dismiss_it =
      rw
        (sym (
          dismiss_standing t.settings.auto_approve (lookup text_keys t.allowed id)
            (lookup text_keys t.attempts id)))
        (after _ id (lookup text_keys t.allowed id) none refl
          (lookup-erase_hit text_keys t.attempts id id (text_eq_refl id))
          (Apart-none (lookup text_keys t.allowed id)))
  step_self login = admit_known_self (lookup text_keys t.allowed id) refl
  step_self (approve_newcomers enabled) = record { stands = refl; apart = h id }

step-After :
    (t : Trackers) (now : ℕ) (id j : Text) (who : Option Text) (r : Request)
    → IsApart t
    → After
        (step t now id who r)
        j
        (if text_eq id j then spec t.settings.auto_approve r (standing t j) else standing t j)
step-After t now id j who r h = elim (Bool-cases (text_eq id j)) [
  | inl e ↦
      let same : id ≡ j = (text_eq_iff id j).0 e in
      rw (sym same, text_eq_refl id) (step_self t now id who h r)
  | inr e ↦ rw e (step-other t now id j who h e r)
]

-- Every request moves the tracker it names as the specification says, and no other: allowing and
-- disallowing, dismissing a refused one, a login, which allows a newcomer only if newcomers are approved
-- and counts it as refused otherwise, and the switch. No tracker is ever both allowed and waiting.
pub step-refines :
    (t : Trackers) (now : ℕ) (id j : Text) (who : Option Text) (r : Request)
    → IsApart t
    → (standing (step t now id who r) j
        ≡ (if text_eq id j then spec t.settings.auto_approve r (standing t j) else standing t j))
      × IsApart (step t now id who r)
step-refines t now id j who r h =
    ((step-After t now id j who r h).stands, λ k. (step-After t now id k who r h).apart)
