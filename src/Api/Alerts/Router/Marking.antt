-- ===== src/Api/Alerts/Router/Marking.antt =====
-- What `mark_seen` of api/routers/alerts.py leaves unread.
use gps_tracking.Prelude.{
  ℕ, ◌≡◌, refl, ap, max, ltb, ◌==◌, ==_iff, Option, keep, length, if◌then◌else◌, Bool-cases, inl,
  inr,
}
use gps_tracking.Api.Account.{AuthenticatedUser}
use gps_tracking.Api.Alerts as Repository
use gps_tracking.Api.Alerts.{Row, Alerts, mark_of, set_mark, visible}
use gps_tracking.Api.Alerts.Router.{viewer_of, unread, mark_seen}

-- An account's mark after one moved its own.
abbrev pub mark_after : (ℕ → Option ℕ) → ℕ → ℕ → ℕ → ℕ
mark_after seen user_id seen_id id =
    if user_id == id then max (mark_of (seen id)) seen_id else mark_of (seen id)

set_mark-mark_after :
    (seen : ℕ → Option ℕ) (user_id seen_id id : ℕ)
    → mark_of (set_mark seen user_id (max (mark_of (seen user_id)) seen_id) id)
      ≡ mark_after seen user_id seen_id id
set_mark-mark_after seen user_id seen_id id = elim (Bool-cases (user_id == id)) [
  | inl e ↦ rw e (ap (λ (k : ℕ). max (mark_of (seen k)) seen_id) ((==_iff user_id id).0 e))
  | inr e ↦ rw e refl
]

-- After an account marks alerts as read, every account is told of the alerts above its own mark:
-- that account's is the higher of the old mark and the new one, and nobody else's has moved.
pub mark_seen-unread :
    (r : Alerts) (u other : AuthenticatedUser) (seen_id : ℕ)
    → unread (mark_seen r u seen_id).1 other ≡ (
      length (
          keep
            (λ (x : Row). ltb (mark_after r.seen u.id seen_id other.id) x.alert.id)
            (visible r (viewer_of other))),
      mark_after r.seen u.id seen_id other.id,
    )
unfolding mark_seen unread Repository.mark_seen Repository.unread visible viewer_of
mark_seen-unread r u other seen_id =
    ap (λ (m : ℕ). (length (keep (λ (x : Row). ltb m x.alert.id) (visible r (viewer_of other))), m))
      (set_mark-mark_after r.seen u.id seen_id other.id)
