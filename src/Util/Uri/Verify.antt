-- ===== src/Util/Uri/Verify.antt =====
-- verify_path against a description of what it refuses.
use mcaster1dnas.Base.{
  ℕ, Bool, Bytes, [], false, inl, inr, refl, true, ◌∷◌, ◌≡◌, ◌⊎◌, ==_iff, Bool-cases, arith, ◌==◌,
  ◌||◌, ◌↔◌, ◌≢◌,
}
use mcaster1dnas.Util.Uri.{is_separator, verify_from, verify_path}

-- Dots alone, then a separator: the rest of a path that leaves a component of dots.
pub data Ends : Bytes → Type 0 where
  stop : {c : ℕ} (s : Bytes) → is_separator c ≡ true → Ends (c ∷ s)
  dot : {c : ℕ} {s : Bytes} → c ≡ b'.' → Ends s → Ends (c ∷ s)

-- Somewhere in the path two separators stand with nothing but dots between them: `//`, `/./`,
-- `/../` and so on.
pub data Traverses : Bytes → Type 0 where
  here : {c : ℕ} {s : Bytes} → is_separator c ≡ true → Ends s → Traverses (c ∷ s)
  later : {c : ℕ} {s : Bytes} → Traverses s → Traverses (c ∷ s)

Ends-cons : {c : ℕ} {s : Bytes} → Ends (c ∷ s) → (is_separator c ≡ true) ⊎ ((c ≡ b'.') × Ends s)
Ends-cons (stop s h) = inl h
Ends-cons (dot e r) = inr (e, r)

Traverses-cons :
    {c : ℕ} {s : Bytes} → Traverses (c ∷ s) → ((is_separator c ≡ true) × Ends s) ⊎ Traverses s
Traverses-cons (here h e) = inl (h, e)
Traverses-cons (later t) = inr t

-- What the loop refuses in each of its states.
abbrev Refused : Bool → Bytes → Type 0
Refused true s = Ends s ⊎ Traverses s
Refused false s = Traverses s

not-Traverses-nil : ¬ Traverses []
not-Traverses-nil t = go t refl
  where
    go : {s : Bytes} → Traverses s → s ≡ [] → ⊥
    go (here h e) p = cc
    go (later u) p = cc

not-Ends-nil : ¬ Ends []
not-Ends-nil t = go t refl
  where
    go : {s : Bytes} → Ends s → s ≡ [] → ⊥
    go (stop s h) p = cc
    go (dot h e) p = cc

after_separator : {c : ℕ} {s : Bytes} → is_separator c ≡ true → Refused true s → Traverses (c ∷ s)
after_separator h (inl e) = here h e
after_separator h (inr t) = later t

after_dot : {c : ℕ} {s : Bytes} → c ≡ b'.' → Refused true s → Refused true (c ∷ s)
after_dot e (inl r) = inl (dot e r)
after_dot e (inr t) = inr (later t)

in_run : (c : ℕ) (s : Bytes) → is_separator c ≡ false → Refused (c == b'.') s → Refused true (c ∷ s)
in_run c s h r = elim (Bool-cases (c == b'.')) [
  | inl e ↦ after_dot ((==_iff c b'.').0 e) (rw e at r)
  | inr e ↦ inr (later (rw e at r))
]

verify_from-Refused :
    (dir dots : Bool) (s : Bytes) → verify_from dir dots s ≡ false → Refused (dir || dots) s
unfolding verify_from
verify_from-Refused dir dots [] h = cc
verify_from-Refused false false (c ∷ s) h = elim (Bool-cases (is_separator c)) [
  | inl e ↦ after_separator e (verify_from-Refused true false s (ground arith))
  | inr e ↦ later (verify_from-Refused false false s (ground arith))
]
verify_from-Refused false true (c ∷ s) h = elim (Bool-cases (is_separator c)) [
  | inl e ↦ inl (stop s e)
  | inr e ↦ in_run c s e (verify_from-Refused false (c == b'.') s (ground arith))
]
verify_from-Refused true dots (c ∷ s) h = elim (Bool-cases (is_separator c)) [
  | inl e ↦ inl (stop s e)
  | inr e ↦ in_run c s e (verify_from-Refused false (c == b'.') s (ground arith))
]

not-Refused-nil : ¬ Refused true []
not-Refused-nil (inl e) = not-Ends-nil e
not-Refused-nil (inr t) = not-Traverses-nil t

not_in_run :
    (c : ℕ) (s : Bytes) → is_separator c ≡ false → ¬ Refused (c == b'.') s → ¬ Refused true (c ∷ s)
not_in_run c s h k (inl e) = elim (Ends-cons e) [
  | inl p ↦ cc
  | inr (p, r) ↦ k (rw ((==_iff c b'.').1 p) (inl r))
]
not_in_run c s h k (inr t) = elim (Traverses-cons t) [
  | inl (p, r) ↦ cc
  | inr r ↦ elim (Bool-cases (c == b'.')) [ inl p ↦ k (rw p (inr r)) | inr p ↦ k (rw p r) ]
]

not_outside :
    (c : ℕ) (s : Bytes)
    → (is_separator c ≡ true → ¬ Refused true s)
    → ¬ Traverses s
    → ¬ Traverses (c ∷ s)
not_outside c s k l t = elim (Traverses-cons t) [ inl (p, r) ↦ k p (inl r) | inr r ↦ l r ]

verify_from-not-Refused :
    (dir dots : Bool) (s : Bytes) → verify_from dir dots s ≡ true → ¬ Refused (dir || dots) s
unfolding verify_from
verify_from-not-Refused false false [] h = not-Traverses-nil
verify_from-not-Refused false true [] h = not-Refused-nil
verify_from-not-Refused true dots [] h = not-Refused-nil
verify_from-not-Refused false false (c ∷ s) h = elim (Bool-cases (is_separator c)) [
  | inl e ↦
      let k : ¬ Refused true s = verify_from-not-Refused true false s (ground arith) in
      not_outside c s (λ _. k) (λ t. k (inr t))
  | inr e ↦ not_outside c s (λ p. cc) (verify_from-not-Refused false false s (ground arith))
]
verify_from-not-Refused false true (c ∷ s) h = elim (Bool-cases (is_separator c)) [
  | inl e ↦ absurd (ground arith)
  | inr e ↦ not_in_run c s e (verify_from-not-Refused false (c == b'.') s (ground arith))
]
verify_from-not-Refused true dots (c ∷ s) h = elim (Bool-cases (is_separator c)) [
  | inl e ↦ absurd (ground arith)
  | inr e ↦ not_in_run c s e (verify_from-not-Refused false (c == b'.') s (ground arith))
]

-- `verify_path` accepts a path exactly when it is not empty and no two separators in it stand
-- with nothing but dots between them.
pub verify_path_iff : (p : Bytes) → (verify_path p ≡ true) ↔ ((p ≢ []) × ¬ Traverses p)
unfolding verify_path
verify_path_iff [] = (λ h. cc, λ h. absurd (h.0 refl))
verify_path_iff (c ∷ s) = (
  λ h. (λ e. cc, verify_from-not-Refused false false (c ∷ s) h),
  λ h. elim (Bool-cases (verify_from false false (c ∷ s))) [
    | inl e ↦ e
    | inr e ↦ absurd (h.1 (verify_from-Refused false false (c ∷ s) e))
  ],
)
