-- ===== src/Protocol/Result.antt =====
-- Python's exceptions of the encoders: `ValueError` and `struct.error`.
pub data Error : Type 0 where
  value_error struct_error : Error

pub data Result {ℓ} (A : Type ℓ) : Type ℓ where
  ok : A → Result A
  err : Error → Result A

infixl 5 ◌>>=◌
abbrev pub ◌>>=◌ {ℓ κ} : {A : Type ℓ} {B : Type κ} → Result A → (A → Result B) → Result B
ok a >>= f = f a
err e >>= f = err e
