-- ===== src/Api/Http.antt =====
-- What a handler answers: a value, or one of the `HTTPException`s that the routers raise.
use gps_tracking.Prelude.{ℕ}

pub data Reply (A : Type 0) : Type 0 where
  ok : A → Reply A
  bad_request unauthorized forbidden not_found conflict : Reply A
  too_many_requests : ℕ → Reply A

infixl 5 ◌>>=◌
abbrev pub ◌>>=◌ : {A B : Type 0} → Reply A → (A → Reply B) → Reply B
ok a >>= f = f a
bad_request >>= f = bad_request
unauthorized >>= f = unauthorized
forbidden >>= f = forbidden
not_found >>= f = not_found
conflict >>= f = conflict
too_many_requests seconds >>= f = too_many_requests seconds
