-- ===== src/Gateway/Text.antt =====
-- Texts as lists of code points, and their equality test.
use gps_tracking.Prelude.{
  ◌≡◌, refl, ◌↔◌, Bool, true, false, not, ◌&&◌, List, [], ◌∷◌, keep, ◌==◌, ==_refl, arith,
}
use gps_tracking.Prelude.Dict.{Keys}
use gps_tracking.Protocol.Codec.Cell.{Text}

unfoldable pub text_eq : Text → Text → Bool
text_eq [] [] = true
text_eq [] (d ∷ t) = false
text_eq (c ∷ s) [] = false
text_eq (c ∷ s) (d ∷ t) = c == d && text_eq s t

pub text_eq_refl : (s : Text) → text_eq s s ≡ true
unfolding text_eq
text_eq_refl [] = refl
text_eq_refl (c ∷ s) = rw (==_refl c, text_eq_refl s) refl

text_eq→eq : (s t : Text) → text_eq s t ≡ true → s ≡ t
unfolding text_eq
text_eq→eq [] [] h = refl
text_eq→eq [] (d ∷ t) h = cc
text_eq→eq (c ∷ s) [] h = cc
text_eq→eq (c ∷ s) (d ∷ t) h = ground (arith, text_eq→eq s t)

pub text_eq_iff : (s t : Text) → (text_eq s t ≡ true) ↔ (s ≡ t)
text_eq_iff s t = (text_eq→eq s t, λ e. rw e (text_eq_refl t))

abbrev pub text_keys : Keys Text
text_keys = record { same = text_eq; same_iff = text_eq_iff }

-- `list(dict.fromkeys(…))`: the first of equal items.
abbrev pub without : Text → List Text → List Text
without d ds = keep (λ (x : Text). not (text_eq d x)) ds

abbrev pub distinct : List Text → List Text
distinct [] = []
distinct (d ∷ ds) = d ∷ without d (distinct ds)
