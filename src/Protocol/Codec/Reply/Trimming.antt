-- ===== src/Protocol/Codec/Reply/Trimming.antt =====
-- The `strip` calls of `decode_command_reply` of gps_gateway/protocol/codec.py.
use gps_tracking.Prelude.{
  ℕ, ◌≤◌, ◌<◌, ◌≡◌, ◌⊎◌, inl, inr, refl, sym, ap, ◌∙◌, Bool, true, false, [], ◌∷◌, ◌++◌, ◌==◌, All,
  All-append, arith,
}
use mathlib.Core.List.{
  reverse, reverse-append, reverse-reverse, reverse-cons, append_assoc, append-nil,
}
use mathlib.Core.Path.{subst}
use gps_tracking.Protocol.Codec.Cell.{Text}
use gps_tracking.Protocol.Codec.Reply.{is_space, strip_left, strip, clean}

-- A tab, line feed, vertical tab, form feed, carriage return or space.
abbrev pub IsBlank : ℕ → Type 0
IsBlank c = (c ≡ 32) ⊎ ((9 ≤ c) × (c ≤ 13))

-- A printable character of ASCII but the space.
abbrev pub IsInk : ℕ → Type 0
IsInk c = (33 ≤ c) × (c < 127)

abbrev pub Starts : (ℕ → Type 0) → Text → Type 0
Starts P text = (a : ℕ) × (rest : Text) × (text ≡ a ∷ rest) × P a

abbrev pub Ends : (ℕ → Type 0) → Text → Type 0
Ends P text = (b : ℕ) × (rest : Text) × (text ≡ rest ++ (b ∷ [])) × P b

-- Neither begins nor ends with what would be stripped.
abbrev pub IsTrimmed : Text → Type 0
IsTrimmed text = Starts IsInk text × Ends IsInk text

-- The text with blanks around it, and NULs around those.
abbrev pub IsPadded : Text → Text → Type 0
IsPadded message text =
    (nuls : Text) × (blanks : Text) × (blanks' : Text) × (nuls' : Text) × (message
      ≡ nuls ++ ((blanks ++ (text ++ blanks')) ++ nuls'))
    × All (λ (c : ℕ). c ≡ 0) nuls
    × All IsBlank blanks
    × IsTrimmed text
    × All IsBlank blanks'
    × All (λ (c : ℕ). c ≡ 0) nuls'

module _ {P Q : ℕ → Type 0} (f : (c : ℕ) → P c → Q c) where
  All-weaken : (text : Text) → All P text → All Q text
  All-weaken [] h = tt
  All-weaken (c ∷ text) h = (f c h.0, All-weaken text h.1)

  Starts-weaken : (text : Text) → Starts P text → Starts Q text
  Starts-weaken text (a, rest, e, k) = (a, rest, e, f a k)

  Ends-weaken : (text : Text) → Ends P text → Ends Q text
  Ends-weaken text (b, rest, e, k) = (b, rest, e, f b k)

module _ {P : ℕ → Type 0} where
  Starts-prepend : (pad core : Text) → All P pad → Starts P core → Starts P (pad ++ core)
  Starts-prepend [] core h s = s
  Starts-prepend (c ∷ pad) core h s = (c, pad ++ core, refl, h.0)

  Starts-front : (core pad : Text) → Starts P core → Starts P (core ++ pad)
  Starts-front core pad (a, rest, e, k) = (a, rest ++ pad, ap (λ (x : Text). x ++ pad) e, k)

  Ends-prepend : (pad core : Text) → Ends P core → Ends P (pad ++ core)
  Ends-prepend pad core (b, rest, e, k) =
      (b, pad ++ rest, ap (◌++◌ pad) e ∙ sym (append_assoc pad rest (b ∷ [])), k)

  Ends-append : (core pad : Text) → Ends P core → All P pad → Ends P (core ++ pad)
  Ends-append core [] e h = subst (Ends P) (sym (append-nil core)) e
  Ends-append core (c ∷ pad) e h =
      subst (Ends P) (append_assoc core (c ∷ []) pad)
        (Ends-append (core ++ (c ∷ [])) pad (c, core, refl, h.0) h.1)

module _ (p : ℕ → Bool) where
  abbrev Stripped : ℕ → Type 0
  Stripped c = p c ≡ true

  abbrev Kept : ℕ → Type 0
  Kept c = p c ≡ false

  strip_left-append :
      (pad core : Text) → All Stripped pad → Starts Kept core → strip_left p (pad ++ core) ≡ core
  unfolding strip_left
  strip_left-append [] core h (a, rest, e, k) = rw (e, k) refl
  strip_left-append (c ∷ pad) core h s = rw h.0 (strip_left-append pad core h.1 s)

  All-reverse : (xs : Text) → All Stripped xs → All Stripped (reverse xs)
  All-reverse [] h = tt
  All-reverse (x ∷ xs) h =
      subst (All Stripped) (sym (reverse-cons x xs))
        (All-append Stripped (reverse xs) (x ∷ []) (All-reverse xs h.1) (h.0, tt))

  Starts-reverse : (core : Text) → Ends Kept core → Starts Kept (reverse core)
  Starts-reverse core (b, rest, e, k) =
      (b, reverse rest, ap reverse e ∙ reverse-append rest (b ∷ []), k)

  strip-padded :
      (pad core pad' : Text)
      → All Stripped pad
      → All Stripped pad'
      → Starts Kept core
      → Ends Kept core
      → strip p (pad ++ (core ++ pad')) ≡ core
  unfolding strip
  strip-padded pad core pad' h h' s e =
      let left : strip_left p (pad ++ (core ++ pad')) ≡ core ++ pad' =
        strip_left-append pad (core ++ pad') h (Starts-front core pad' s) in
      let right : strip_left p (reverse (core ++ pad')) ≡ reverse core =
        ap (strip_left p) (reverse-append core pad')
        ∙ strip_left-append (reverse pad') (reverse core) (All-reverse pad' h')
            (Starts-reverse core e) in
      ap (λ (x : Text). reverse (strip_left p (reverse x))) left
      ∙ ap reverse right
      ∙ reverse-reverse core

blank_space : (c : ℕ) → IsBlank c → is_space c ≡ true
unfolding is_space
blank_space c (inl e) = rw e refl
blank_space c (inr h) = ground (arith, h)

ink_space : (c : ℕ) → IsInk c → is_space c ≡ false
unfolding is_space
ink_space c h = ground (arith, h)

blank_nul : (c : ℕ) → IsBlank c → (c == 0) ≡ false
blank_nul c (inl e) = rw e refl
blank_nul c (inr h) = ground (arith, h)

ink_nul : (c : ℕ) → IsInk c → (c == 0) ≡ false
ink_nul c h = ground (arith, h)

nul_nul : (c : ℕ) → c ≡ 0 → (c == 0) ≡ true
nul_nul c e = rw e refl

-- What is stripped of a padded text is the padding, all of it.
pub clean-padded : (message text : Text) → IsPadded message text → clean message ≡ text
unfolding clean
clean-padded message text (nuls, blanks, blanks', nuls', e, h, k, t, k', h') =
    let inner = blanks ++ (text ++ blanks') in
    let first : strip (λ c. c == 0) message ≡ inner =
      ap (strip (λ c. c == 0)) e
      ∙ strip-padded (λ c. c == 0) nuls inner nuls' (All-weaken nul_nul nuls h)
          (All-weaken nul_nul nuls' h')
          (Starts-prepend blanks (text ++ blanks') (All-weaken blank_nul blanks k)
            (Starts-front text blanks' (Starts-weaken ink_nul text t.0)))
          (Ends-prepend blanks (text ++ blanks') (
            Ends-append text blanks' (Ends-weaken ink_nul text t.1)
              (All-weaken blank_nul blanks' k'))) in
    ap (strip is_space) first
    ∙ strip-padded is_space blanks text blanks' (All-weaken blank_space blanks k)
        (All-weaken blank_space blanks' k') (Starts-weaken ink_space text t.0)
        (Ends-weaken ink_space text t.1)
