-- ===== src/Util/Pattern/Expansion.antt =====
-- What an expansion is, and when the buffer has room for it.
use mcaster1dnas.Base.{
  ℕ, Bytes, [], ap, codes, if-cases, length, none, refl, str_eq, str_eq→eq, suc, zero, ◌++◌, ◌∷◌,
  ◌≡◌, ◌≢◌, ◌≤◌, Option, Option-cases, arith, inl, inr, leb, length-append, ltb, some, sym, ◌+◌,
  ◌-◌, ◌<◌, ◌||◌, ◌∙◌, Bool-cases, subst, Bool, false, if◌then◌else◌, true,
}
use mcaster1dnas.Util.Pattern.{after_tag, expand_loop, expand_pattern, without_slash}

-- `t` is `p` with `mnt` in place of every `${mount}`, from the left.
pub data IsExpansion (mnt : Bytes) : Bytes → Bytes → Type 0 where
  done : IsExpansion mnt [] []
  mount : {p t : Bytes} → IsExpansion mnt p t → IsExpansion mnt (codes "${mount}" ++ p) (mnt ++ t)
  byte :
      {p t : Bytes} (c : ℕ)
      → ((q : Bytes) → c ∷ p ≢ codes "${mount}" ++ q)
      → IsExpansion mnt p t
      → IsExpansion mnt (c ∷ p) (c ∷ t)

no_tag : (p : Bytes) → ((q : Bytes) → p ≢ codes "${mount}" ++ q) → after_tag p ≡ none
unfolding after_tag
no_tag [] f = refl
no_tag (a ∷ []) f = refl
no_tag (a ∷ b ∷ []) f = refl
no_tag (a ∷ b ∷ c ∷ []) f = refl
no_tag (a ∷ b ∷ c ∷ d ∷ []) f = refl
no_tag (a ∷ b ∷ c ∷ d ∷ e ∷ []) f = refl
no_tag (a ∷ b ∷ c ∷ d ∷ e ∷ g ∷ []) f = refl
no_tag (a ∷ b ∷ c ∷ d ∷ e ∷ g ∷ h ∷ []) f = refl
no_tag (a ∷ b ∷ c ∷ d ∷ e ∷ g ∷ h ∷ i ∷ p) f =
    if-cases (λ o. o ≡ none) (str_eq (a ∷ b ∷ c ∷ d ∷ e ∷ g ∷ h ∷ i ∷ []) (codes "${mount}")) _ _
      (λ k. absurd (
        f p
          (ap (λ s. s ++ p) (str_eq→eq (a ∷ b ∷ c ∷ d ∷ e ∷ g ∷ h ∷ i ∷ []) (codes "${mount}") k))))
      (λ _. refl)

empty : (s : Bytes) → length s ≤ 0 → s ≡ []
empty [] h = refl
empty (c ∷ s) h = absurd (omega arith)

loop_copies :
    (fuel room : ℕ) (mnt : Bytes) (c : ℕ) (p : Bytes)
    → after_tag (c ∷ p) ≡ none
    → expand_loop (suc fuel) (suc room) mnt (c ∷ p) ≡ c ∷ expand_loop fuel room mnt p
unfolding expand_loop
loop_copies fuel room mnt c p e = rw (e, expand_loop)

-- The loop writes the whole expansion where the room is enough for it.
loop-IsExpansion :
    (fuel room : ℕ) (mnt p t : Bytes)
    → IsExpansion mnt p t
    → length p ≤ fuel
    → length t ≤ room
    → expand_loop fuel room mnt p ≡ t
unfolding expand_loop after_tag
loop-IsExpansion zero room mnt _ _ done h k = refl
loop-IsExpansion (suc fuel) zero mnt _ _ done h k = refl
loop-IsExpansion (suc fuel) (suc room) mnt _ _ done h k = refl
loop-IsExpansion zero room mnt _ _ (mount x) h k = absurd (omega arith)
loop-IsExpansion zero room mnt _ _ (byte c f x) h k = absurd (omega arith)
loop-IsExpansion (suc fuel) zero mnt _ _ (mount {t = t} x) h k = sym (empty (mnt ++ t) k)
loop-IsExpansion (suc fuel) zero mnt _ _ (byte c f x) h k = absurd (omega arith)
loop-IsExpansion (suc fuel) (suc room) mnt _ _ (mount {p = p} {t = t} x) h k =
    ap (λ s. mnt ++ s)
      (loop-IsExpansion fuel (suc room - length mnt) mnt p t x (omega arith)
        (omega (arith, k, length-append mnt t)))
loop-IsExpansion (suc fuel) (suc room) mnt _ _ (byte {p = p} {t = t} c f x) h k =
    loop_copies fuel room mnt c p (no_tag (c ∷ p) f)
    ∙ ap (λ s. c ∷ s) (loop-IsExpansion fuel room mnt p t x (omega arith) (omega arith))

-- For a mount point and a pattern whose expansion `t` has room, with a NUL, in a buffer of `size`
-- bytes that is larger than the mount point, `util_expand_pattern` writes `t`; a first slash of the
-- mount point is left out.
pub expand_pattern-IsExpansion :
    (m p t : Bytes) (size : ℕ)
    → 0 < length m
    → length m + 1 < size
    → IsExpansion (without_slash m) p t
    → length t < size
    → expand_pattern (some m) (some p) size ≡ some (t, length t)
unfolding expand_pattern
expand_pattern-IsExpansion m p t size h k x l =
    if-cases (λ (o : Option (Bytes × ℕ)). o ≡ some (t, length t))
      (ltb (length m) 1 || leb (size - 1) (length m)) none
      (some (
        expand_loop (length p) (size - 1) (without_slash m) p,
        length (expand_loop (length p) (size - 1) (without_slash m) p),
      ))
      (λ e. absurd (ground arith))
      (λ _.
        ap (λ s. some (s, length s))
          (loop-IsExpansion (length p) (size - 1) (without_slash m) p t x (omega arith)
            (omega arith)))

no_room : (fuel room : ℕ) (mnt p : Bytes) → room ≡ 0 → length (expand_loop fuel room mnt p) ≤ 0
unfolding expand_loop
no_room zero room mnt p h = omega arith
no_room (suc fuel) zero mnt p h = omega arith
no_room (suc fuel) (suc room) mnt p h = absurd (omega arith)

rest-length :
    (room n k : ℕ) → (suc room - n ≡ 0 → k ≤ 0) → k ≤ suc room - n + n → n + k ≤ suc room + n
rest-length room n k h l = elim (Bool-cases (ltb n (suc room))) [
  | inl e ↦ ground arith
  | inr e ↦ let none_left : suc room - n ≡ 0 = ground arith in omega (arith, h none_left)
]

loop-length :
    (fuel room : ℕ) (mnt p : Bytes) → length (expand_loop fuel room mnt p) ≤ room + length mnt
unfolding expand_loop
loop-length zero room mnt p = omega arith
loop-length (suc fuel) zero mnt p = omega arith
loop-length (suc fuel) (suc room) mnt [] = omega arith
loop-length (suc fuel) (suc room) mnt (c ∷ p) = elim (Option-cases (after_tag (c ∷ p))) [
  | inl e ↦ rw (e, expand_loop) (omega (arith, loop-length fuel room mnt p))
  | inr (rest, e) ↦
      let left = suc room - length mnt in
      let k = expand_loop fuel left mnt rest in
      rw (e, expand_loop)
        (subst (λ n. n ≤ suc room + length mnt) (sym (length-append mnt k))
          (rest-length room (length mnt) (length k) (no_room fuel left mnt rest)
            (loop-length fuel left mnt rest)))
]

given :
    (c : Bool) (text t : Bytes) (n : ℕ)
    → if◌then◌else◌ {A = Option (Bytes × ℕ)} c none (some (text, length text)) ≡ some (t, n)
    → (text ≡ t) × (length text ≡ n)
given true text t n h = absurd (ground arith)
given false text t n h = (
  ap (λ (o : Option (Bytes × ℕ)). elim o [ none ↦ [] | some r ↦ r.0 ]) h,
  ap (λ (o : Option (Bytes × ℕ)). elim o [ none ↦ 0 | some r ↦ r.1 ]) h,
)

-- Whatever the pattern is, in a buffer of `size` bytes `util_expand_pattern` writes no more than
-- the mount point's length, without its first slash, beyond the last byte but one.
pub expand_pattern-length :
    (m p t : Bytes) (size n : ℕ)
    → expand_pattern (some m) (some p) size ≡ some (t, n)
    → (n ≡ length t) × (length t ≤ size - 1 + length (without_slash m))
unfolding expand_pattern
expand_pattern-length m p t size n h =
    let text = expand_loop (length p) (size - 1) (without_slash m) p in
    let r = given (ltb (length m) 1 || leb (size - 1) (length m)) text t n h in
    (
      sym r.1 ∙ ap length r.0,
      subst (λ s. length s ≤ size - 1 + length (without_slash m)) r.0
          (loop-length (length p) (size - 1) (without_slash m) p),
    )
