-- ===== src/Gateway/Admission/Laws.antt =====
-- Who is refused, and for how long an approval lasts.
use gps_tracking.Prelude.{
  ℕ, ◌+◌, ◌≤◌, ◌<◌, ◌≡◌, ◌↔◌, refl, true, false, List, [], ◌∷◌, ltb, if◌then◌else◌, arith,
}
use gps_tracking.Protocol.Codec.Cell.{Text}
use gps_tracking.Gateway.Text.{text_eq, text_eq_iff, text_eq_refl}
use gps_tracking.Gateway.Admission.{
  Mode, enforce, Answer, allowed, unknown, postgres, until_of, remember, admit_answer, admit,
}

until_of-remember :
    (m : List (Text × ℕ)) (id k : Text) (time : ℕ)
    → until_of (remember m id time) k ≡ (if text_eq id k then time else until_of m k)
unfolding until_of remember
until_of-remember [] id k time = refl
until_of-remember ((j, old) ∷ m) id k time =
    ground
      (arith, text_eq_iff j id, text_eq_iff j k, text_eq_iff id k, until_of-remember m id k time)

-- A login is refused exactly where the mode is `enforce`, no approval of that tracker is remembered for
-- longer than now, and the database was asked and does not allow it: a failure of the database refuses
-- nobody.
pub admit-refuses :
    (mode : Mode) (cache_s : ℕ) (until : List (Text × ℕ)) (now : ℕ) (ask : Text → Answer)
    (id : Text)
    → ((admit (postgres mode cache_s until) now ask id).0 ≡ false)
      ↔ ((mode ≡ enforce) × (until_of until id ≤ now) × (ask id ≡ unknown))
unfolding admit admit_answer
admit-refuses mode cache_s until now ask id = ground arith

-- An approval at time `now` admits that tracker, whatever the database says by then, at every time
-- before `now + cache_s`, and no other tracker's approval changes.
pub admit-remembers :
    (mode : Mode) (cache_s : ℕ) (until : List (Text × ℕ)) (now later : ℕ) (ask ask' : Text → Answer)
    (id other : Text)
    → until_of until id ≤ now
    → ask id ≡ allowed
    → later < now + cache_s
    → ((admit (admit (postgres mode cache_s until) now ask id).1 later ask' id).0 ≡ true)
      × (until_of (remember until id (now + cache_s)) other
          ≡ (if text_eq id other then now + cache_s else until_of until other))
unfolding admit admit_answer
admit-remembers mode cache_s until now later ask ask' id other old says early = (
  (let asked : ltb now (until_of until id) ≡ false = ground arith in
      let cached : ltb later (until_of (remember until id (now + cache_s)) id) ≡ true =
        rw (until_of-remember until id id (now + cache_s), text_eq_refl id) (ground arith) in
      rw (asked, says, cached) refl),
  until_of-remember until id other (now + cache_s),
)
