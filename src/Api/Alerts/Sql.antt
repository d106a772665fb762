-- ===== src/Api/Alerts/Sql.antt =====
-- `PostgresAlertRepository` of api/alerts_repository.py: its queries as functions of `vehicle_alerts`
-- and `alert_reads`, and that they answer as the in-memory backend does.
use gps_tracking.Prelude.{
  ℕ, ◌≡◌, ◌≢◌, refl, sym, ap, ◌∙◌, Bool, true, false, not, ◌&&◌, ◌||◌, Option, none, some, List, [],
  ◌∷◌, map, keep, keep_both, length, take, drop, ltb, leb, arith,
}
use gps_tracking.Prelude.Sorting.{sorted, keep-sorted, length-sorted}
use gps_tracking.Protocol.Codec.Cell.{Text}
use gps_tracking.Gateway.Text.{text_eq}
use gps_tracking.Api.Account.{is_device}
use gps_tracking.Api.Alerts.{
  AlertKind, moving, stopped, ignition_on, ignition_off, geofence_enter, geofence_exit, overspeed,
  harsh_braking, harsh_acceleration, AlertViewer, Alert, Row, Alerts, Query, is_kind, is_owner,
  sees, sees_row, newer, visible, or_true, matches, list_alerts, mark_of, unread,
}

-- Whether the column's text begins with `geofence_`: what the pattern `geofence\_%` asks.
abbrev pub like_geofence : AlertKind → Bool
like_geofence geofence_enter = true
like_geofence geofence_exit = true
like_geofence kind = false

-- `_VISIBLE`; a comparison with NULL is not true.
pub sql_visible : AlertViewer → Row → Bool
sql_visible v r =
    v.is_admin
    || (is_device r.alert.device_id v.devices
        && (not (like_geofence r.alert.kind)
            || (v.can_use_geofences && is_owner r.owner_id v.user_id)))

-- `list(kinds) if kinds else None`
abbrev pub kinds_argument : Option (List AlertKind) → Option (List AlertKind)
kinds_argument none = none
kinds_argument (some []) = none
kinds_argument (some (k ∷ kinds)) = some (k ∷ kinds)

-- The `WHERE` of `list_alerts`.
pub sql_where : AlertViewer → Query → Row → Bool
sql_where v q r =
    sql_visible v r
    && or_true q.device_id (λ (d : Text). text_eq r.alert.device_id d)
    && or_true (kinds_argument q.kinds) (λ (ks : List AlertKind). is_kind ks r.alert.kind)
    && or_true q.since (λ (t : ℕ). leb t r.alert.occurred_at)
    && or_true q.until (λ (t : ℕ). leb r.alert.occurred_at t)
    && or_true q.after_id (λ (i : ℕ). ltb i r.alert.id)

-- `SELECT count(*) …`, and `ORDER BY occurred_at DESC, id DESC OFFSET $10 LIMIT $11`
pub sql_list_alerts : Alerts → AlertViewer → Query → ℕ → ℕ → List Alert × ℕ
sql_list_alerts r v q offset limit =
    let rows = sorted newer (keep (sql_where v q) r.alerts) in
    (
      map (λ (x : Row). x.alert) (take limit (drop offset rows)),
      length (keep (sql_where v q) r.alerts),
    )

pub sql_unread : Alerts → AlertViewer → ℕ × ℕ
sql_unread r v =
    let mark = mark_of (r.seen v.user_id) in
    (length (keep (λ (x : Row). sql_visible v x && ltb mark x.alert.id) r.alerts), mark)

newer_asym : (a b : Row) → newer a b ≡ true → newer b a ≡ false
newer_asym a b h = ground (arith, h)

newer_trans : (a b c : Row) → newer a b ≡ false → newer b c ≡ false → newer a c ≡ false
newer_trans a b c h k = ground (arith, h, k)

sql_visible-eq : (v : AlertViewer) (r : Row) → sql_visible v r ≡ sees_row v r
unfolding sql_visible sees
sql_visible-eq v r = go r.alert.kind
  where
    go :
        (k : AlertKind)
        → (v.is_admin
            || (is_device r.alert.device_id v.devices
                && (not (like_geofence k)
                    || (v.can_use_geofences && is_owner r.owner_id v.user_id))))
          ≡ sees v r.alert.device_id k r.owner_id
    go moving = ground arith
    go stopped = ground arith
    go ignition_on = ground arith
    go ignition_off = ground arith
    go geofence_enter = ground arith
    go geofence_exit = ground arith
    go overspeed = ground arith
    go harsh_braking = ground arith
    go harsh_acceleration = ground arith

kinds_kept :
    (kinds : Option (List AlertKind)) (test : List AlertKind → Bool)
    → kinds ≢ some []
    → or_true (kinds_argument kinds) test ≡ or_true kinds test
kinds_kept none test h = refl
kinds_kept (some []) test h = absurd (h refl)
kinds_kept (some (k ∷ kinds)) test h = refl

sql_where-eq :
    (v : AlertViewer) (q : Query) (r : Row)
    → q.kinds ≢ some []
    → sql_where v q r ≡ (sees_row v r && matches q r)
unfolding sql_where matches
sql_where-eq v q r h =
    rw (sql_visible-eq v r, kinds_kept q.kinds (λ (ks : List AlertKind). is_kind ks r.alert.kind) h)
      (ground arith)

-- Unless it is asked for an empty list of kinds, the SQL backend answers with the same page and the same
-- total as the in-memory one, and with the same count of unread alerts: its `WHERE` lets an account see
-- exactly what `AlertViewer.sees` does.
pub sql_list_alerts-eq :
    (r : Alerts) (v : AlertViewer) (q : Query) (offset limit : ℕ)
    → q.kinds ≢ some []
    → (sql_list_alerts r v q offset limit ≡ list_alerts r v q offset limit)
      × (sql_unread r v ≡ unread r v)
unfolding sql_list_alerts list_alerts sql_unread unread visible
sql_list_alerts-eq r v q offset limit h = (page, count)
  where
    seen : List Row
    seen = keep (sees_row v) r.alerts

    filtered : keep (sql_where v q) r.alerts ≡ keep (matches q) seen
    filtered =
        keep_both (sees_row v) (matches q) (sql_where v q) r.alerts (λ x. sql_where-eq v q x h)

    listed : sorted newer (keep (sql_where v q) r.alerts) ≡ keep (matches q) (sorted newer seen)
    listed =
        ap (sorted newer) filtered ∙ sym (keep-sorted newer (matches q) newer_asym newer_trans seen)

    page : sql_list_alerts r v q offset limit ≡ list_alerts r v q offset limit
    page =
        ap
          (λ (rows : List Row). (
            map (λ (x : Row). x.alert) (take limit (drop offset rows)),
            length (keep (sql_where v q) r.alerts),
          ))
          listed
        ∙ ap
            (λ (n : ℕ). (
              map (λ (x : Row). x.alert)
                  (take limit (drop offset (keep (matches q) (sorted newer seen)))),
              n,
            ))
            (sym (length-sorted newer (keep (sql_where v q) r.alerts)) ∙ ap length listed)

    mark : ℕ
    mark = mark_of (r.seen v.user_id)

    after_mark : Row → Bool
    after_mark x = ltb mark x.alert.id

    count : sql_unread r v ≡ unread r v
    count =
        ap (λ (n : ℕ). (n, mark))
          (ap length (
              keep_both (sees_row v) after_mark
                (λ (x : Row). sql_visible v x && ltb mark x.alert.id) r.alerts
                (λ x. rw (sql_visible-eq v x) refl))
            ∙ (sym (length-sorted newer (keep after_mark seen))
                ∙ sym (ap length (keep-sorted newer after_mark newer_asym newer_trans seen))))
