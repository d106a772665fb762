-- ===== src/Gateway/Registry/Laws.antt =====
-- A command reaches the connection that holds its tracker.
use gps_tracking.Prelude.{
  ap, ◌∙◌, ℕ, ◌≡◌, ◌≢◌, refl, none, some, [], ◌∷◌, ◌==◌, ==_iff, ==_refl, if◌then◌else◌, arith, inl,
  inr, Bool-cases,
}
use gps_tracking.Protocol.Codec.Cell.{Text}
use gps_tracking.Gateway.Text.{text_eq, text_eq_iff, text_eq_refl}
use gps_tracking.Gateway.Registry.{Registry, get, add, delete, holds, remove, deliver_to, notify}

pub get-add :
    (r : Registry) (id k : Text) (session : ℕ)
    → get (add r id session) k ≡ (if text_eq id k then some session else get r k)
unfolding get add
get-add [] id k session = refl
get-add ((j, old) ∷ r) id k session =
    ground (arith, text_eq_iff j id, text_eq_iff j k, text_eq_iff id k, get-add r id k session)

get-delete :
    (r : Registry) (id k : Text) → get (delete r id) k ≡ (if text_eq id k then none else get r k)
unfolding get delete
get-delete [] id k = ground arith
get-delete ((j, old) ∷ r) id k =
    ground (arith, text_eq_iff j id, text_eq_iff j k, text_eq_iff id k, get-delete r id k)

-- A session known under one tracker only is known under none once it has left.
pub remove_gone :
    (r : Registry) (id : Text) (ident : ℕ)
    → ((k : Text) → get r k ≡ some ident → id ≡ k)
    → (k : Text) → get (remove r id ident) k ≢ some ident
unfolding remove holds
remove_gone r id ident only k = elim (Bool-cases (holds (get r id) ident)) [
  | inl e ↦
      rw (e, get-delete r id k)
        (elim (Bool-cases (text_eq id k)) [
          | inl same ↦ rw same (λ h. cc)
          | inr other ↦
              rw other (λ h. absurd (ground (arith, (text_eq_iff id k).1 (only k h), other)))
        ])
  | inr e ↦ rw e (λ h.
      let here : get r id ≡ some ident = ap (get r) (only k h) ∙ h in
      let held = rw (here, ==_refl ident) at e in absurd (ground (arith, held)))
]

-- A tracker that reconnects on session `new` is found there, also after its old session has left, and
-- no other tracker's session changes.
pub get-remove-add :
    (r : Registry) (id k : Text) (old new : ℕ)
    → old ≢ new
    → get (remove (add r id new) id old) k ≡ (if text_eq id k then some new else get r k)
unfolding remove holds
get-remove-add r id k old new differ =
    rw (get-add r id id new, text_eq_refl id)
      (elim (Bool-cases (new == old)) [
        | inl same ↦ absurd (differ (ground (arith, ==_iff new old)))
        | inr other ↦ rw other (get-add r id k new)
      ])

-- The session that holds a tracker and leaves is forgotten, and the others stay.
pub get-remove_self :
    (r : Registry) (id k : Text) (session : ℕ)
    → get (remove (add r id session) id session) k ≡ (if text_eq id k then none else get r k)
unfolding remove holds
get-remove_self r id k session =
    rw
      (
        get-add r id id session,
        text_eq_refl id,
        ==_refl session,
        get-delete (add r id session) id k,
      )
      (elim (Bool-cases (text_eq id k)) [
        | inl same ↦ rw same
        | inr other ↦ rw (other, get-add r id k session, other)
      ])

-- A notification for a tracker goes to the last session that logged in for it, and to no other.
pub notify-add :
    (r : Registry) (id k : Text) (session : ℕ)
    → notify (add r id session) k ≡ (if text_eq id k then session ∷ [] else notify r k)
unfolding notify deliver_to
notify-add r id k session = elim (Bool-cases (text_eq id k)) [
  | inl same ↦ rw (get-add r id k session, same)
  | inr other ↦ rw (get-add r id k session, other)
]
