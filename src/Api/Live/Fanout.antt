-- ===== src/Api/Live/Fanout.antt =====
-- Who gets a fix: the sockets of api/live.py as api/routers/live.py connects and disconnects them.
use gps_tracking.Prelude.{
  ℕ, ◌≡◌, ◌↔◌, ◌⊎◌, inl, inr, refl, sym, ap, ◌∙◌, Bool, true, false, not, ◌&&◌, ◌||◌, Option, some,
  List, [], ◌∷◌, ◌++◌, ◌==◌, All, arith, Bool-cases,
}
use gps_tracking.Protocol.Codec.Cell.{Text}
use gps_tracking.Gateway.Text.{text_eq, text_eq_iff}
use gps_tracking.Api.Account.{admin, Role, AuthenticatedUser, is_admin_role, is_admin}
use gps_tracking.Api.Live.{
  Connections, scope, register, unregister, is_among, may_see, targets, broadcast,
}

-- `live_location` up to its loop, and its `finally`.
pub data Step : Type 0 where
  connect : ℕ → AuthenticatedUser → Step
  disconnect : ℕ → Step

pub run_steps : List Step → Connections → Connections
run_steps [] cs = cs
run_steps (connect socket u ∷ steps) cs = run_steps steps (register cs socket (scope u))
run_steps (disconnect socket ∷ steps) cs = run_steps steps (unregister cs socket)

-- `socket` is among the sockets.
abbrev pub sent_to : ℕ → List ℕ → Bool
sent_to socket [] = false
sent_to socket (s ∷ sockets) = s == socket || sent_to socket sockets

abbrev pub leaves : ℕ → Step → Bool
leaves socket (connect s u) = false
leaves socket (disconnect s) = s == socket

-- The user is an administrator, or the device is one of the user's.
abbrev pub MaySee : AuthenticatedUser → Text → Type 0
MaySee u id =
    (u.role ≡ admin)
    ⊎ ((front : List Text) × (back : List Text) × (u.devices ≡ front ++ (id ∷ back)))

-- A user who may see the device has connected with the socket, and it has not been disconnected since.
abbrev pub IsEntitled : List Step → ℕ → Text → Type 0
IsEntitled steps socket id =
    (before : List Step) × (u : AuthenticatedUser) × (after : List Step) × (steps
      ≡ before ++ (connect socket u ∷ after))
    × All (λ (step : Step). leaves socket step ≡ false) after
    × MaySee u id

is_among→ :
    (id : Text) (devices : List Text)
    → is_among id devices ≡ true
    → (front : List Text) × (back : List Text) × (devices ≡ front ++ (id ∷ back))
unfolding is_among
is_among→ id [] h = absurd (ground (arith, h))
is_among→ id (d ∷ devices) h = elim (Bool-cases (text_eq id d)) [
  | inl e ↦ ([], devices, ap (λ x. x ∷ devices) (sym ((text_eq_iff id d).0 e)))
  | inr e ↦
      let (front, back, eq) = is_among→ id devices (ground (arith, h, e)) in
      (d ∷ front, back, ap (◌∷◌ d) eq)
]

is_among-append : (id : Text) (front back : List Text) → is_among id (front ++ (id ∷ back)) ≡ true
unfolding is_among
is_among-append id [] back = rw ((text_eq_iff id id).1 refl) refl
is_among-append id (d ∷ front) back = ground (arith, is_among-append id front back)

is_admin_role→ : (role : Role) → is_admin_role role ≡ true → role ≡ admin
is_admin_role→ admin h = refl
is_admin_role→ Role.user h = absurd (ground (arith, h))

may_see→ : (u : AuthenticatedUser) (id : Text) → may_see (scope u) id ≡ true → MaySee u id
unfolding may_see scope
may_see→ u id h = elim (Bool-cases (is_admin u)) [
  | inl e ↦ inl (is_admin_role→ u.role e)
  | inr e ↦ let k : is_among id u.devices ≡ true = rw e at h in inr (is_among→ id u.devices k)
]

→may_see : (u : AuthenticatedUser) (id : Text) → MaySee u id → may_see (scope u) id ≡ true
unfolding may_see scope
→may_see u id (inl e) = rw e refl
→may_see u id (inr (front, back, e)) = elim (Bool-cases (is_admin u)) [
  | inl a ↦ rw a refl
  | inr a ↦ rw (a, e) (is_among-append id front back)
]

module _ (socket : ℕ) (id : Text) where
  -- Whether the steps leave what the socket had before them.
  abbrev stays : List Step → Bool
  stays [] = true
  stays (step ∷ steps) = not (leaves socket step) && stays steps

  abbrev entitled : List Step → Bool
  entitled [] = false
  entitled (connect s u ∷ steps) =
      (s == socket && may_see (scope u) id && stays steps) || entitled steps
  entitled (disconnect s ∷ steps) = entitled steps

  sent_to-register :
      (cs : Connections) (s : ℕ) (devices : Option (List Text))
      → sent_to socket (targets (register cs s devices) id)
        ≡ (sent_to socket (targets cs id) || (s == socket && may_see devices id))
  unfolding register targets
  sent_to-register [] s devices = ground arith
  sent_to-register ((s', ds) ∷ cs) s devices =
      let rest = sent_to-register cs s devices in
      elim (Bool-cases (may_see ds id)) [
        | inl e ↦ rw (e, rest) (ground (arith, e))
        | inr e ↦ rw (e, rest) refl
      ]

  sent_to-unregister :
      (cs : Connections) (s : ℕ)
      → sent_to socket (targets (unregister cs s) id)
        ≡ (not (s == socket) && sent_to socket (targets cs id))
  unfolding targets unregister
  sent_to-unregister [] s = ground arith
  sent_to-unregister ((s', ds) ∷ cs) s =
      let rest = sent_to-unregister cs s in
      elim (Bool-cases (s' == s)) [
        | inl e ↦ elim (Bool-cases (may_see ds id)) [
          | inl m ↦ rw (e, m, rest) (ground (arith, e))
          | inr m ↦ rw (e, m, rest) refl
        ]
        | inr e ↦ elim (Bool-cases (may_see ds id)) [
          | inl m ↦ rw (e, m) (rw rest (ground (arith, e)))
          | inr m ↦ rw (e, m) (rw rest refl)
        ]
      ]

  sent_to-run_steps :
      (steps : List Step) (cs : Connections)
      → sent_to socket (targets (run_steps steps cs) id)
        ≡ (entitled steps || (stays steps && sent_to socket (targets cs id)))
  unfolding run_steps
  sent_to-run_steps [] cs = refl
  sent_to-run_steps (connect s u ∷ steps) cs =
      rw (sent_to-run_steps steps (register cs s (scope u)), sent_to-register cs s (scope u))
        (ground arith)
  sent_to-run_steps (disconnect s ∷ steps) cs =
      rw (sent_to-run_steps steps (unregister cs s), sent_to-unregister cs s) (ground arith)

  stays→ :
      (steps : List Step)
      → stays steps ≡ true
      → All (λ (step : Step). leaves socket step ≡ false) steps
  stays→ [] h = tt
  stays→ (step ∷ steps) h = (ground (arith, h), stays→ steps (ground (arith, h)))

  →stays :
      (steps : List Step)
      → All (λ (step : Step). leaves socket step ≡ false) steps
      → stays steps ≡ true
  →stays [] h = refl
  →stays (step ∷ steps) h = rw (h.0, →stays steps h.1) refl

  entitled→ : (steps : List Step) → entitled steps ≡ true → IsEntitled steps socket id
  entitled→ [] h = absurd (ground (arith, h))
  entitled→ (disconnect s ∷ steps) h =
      let (before, u, after, e, k, m) = entitled→ steps h in
      (disconnect s ∷ before, u, after, ap (◌∷◌ (disconnect s)) e, k, m)
  entitled→ (connect s u ∷ steps) h =
      elim (Bool-cases (s == socket && may_see (scope u) id && stays steps)) [
        | inl here ↦
            let same : s ≡ socket = ground (arith, here) in
            (
              [],
              u,
              steps,
              ap (λ (x : ℕ). connect x u ∷ steps) same,
              stays→ steps (ground (arith, here)),
              may_see→ u id (ground (arith, here)),
            )
        | inr not_here ↦
            let (before, v, after, e, k, m) = entitled→ steps (ground (arith, h, not_here)) in
            (connect s u ∷ before, v, after, ap (◌∷◌ (connect s u)) e, k, m)
      ]

  entitled-append :
      (before : List Step) (u : AuthenticatedUser) (after : List Step)
      → stays after ≡ true
      → may_see (scope u) id ≡ true
      → entitled (before ++ (connect socket u ∷ after)) ≡ true
  entitled-append [] u after k m = ground (arith, k, m)
  entitled-append (connect s v ∷ before) u after k m =
      ground (arith, entitled-append before u after k m)
  entitled-append (disconnect s ∷ before) u after k m = entitled-append before u after k m

-- After any connecting and disconnecting, a fix of a device is sent to a socket exactly if a user who may
-- see the device, an administrator or one that the device belongs to, has connected with that socket and
-- the socket has not been disconnected since.
pub broadcast-sent_to :
    (steps : List Step) (socket c : ℕ) (id : Text)
    → (sent_to socket (broadcast (run_steps steps []) (some (c ∷ id))) ≡ true)
      ↔ IsEntitled steps socket (c ∷ id)
unfolding broadcast targets
broadcast-sent_to steps socket c id =
    let all = sent_to-run_steps socket (c ∷ id) steps [] in
    (
      λ h. entitled→ socket (c ∷ id) steps (ground (arith, all, h)),
      λ h.
          let (before, u, after, e, k, m) = h in
          let there =
            entitled-append socket (c ∷ id) before u after (→stays socket (c ∷ id) after k)
              (→may_see u (c ∷ id) m) in
          rw e (rw e at all ∙ rw there refl),
    )
