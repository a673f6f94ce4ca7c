-- ===== src/Mpeg/Detect/Msb.antt =====
-- How close `getMSB4` is to the number that it rounds.
use native.Mathlib.Nat.{pow-suc}
use mcaster1dnas.Base.{
  ℕ, arith, if-cases, inl, inr, ltb, suc, zero, ◌*◌, ◌+◌, ◌/◌, ◌<◌, ◌^◌, ◌≡◌, ◌≤◌, ◌⊎◌, ap, refl,
  subst, ◌%◌, ◌∙◌, sym,
}
use mcaster1dnas.Mpeg.Detect.{adjusted, msb_loop, get_msb4}

le-mul : (a b x : ℕ) → a ≤ b → a * x ≤ b * x
le-mul a b zero h = omega arith
le-mul a b (suc x) h = omega (arith, le-mul a b x h)

-- `m` holds the bits of `v` above the lowest `c`; bits are dropped only from numbers above 15.
record IsCut (v m c : ℕ) : Type 0 where
  above : m * 2 ^ c ≤ v
  below : v < (m + 1) * 2 ^ c
  leading : (8 ≤ m) ⊎ (c ≡ 0)

half-above : (m n x v : ℕ) → n * 2 ≤ m → m * x ≤ v → n * (x * 2) ≤ v
half-above m n x v h k = grind (arith, le-mul (n * 2) m x h)

half-below : (m n x v : ℕ) → m ≤ n * 2 → v < m * x → v < n * (x * 2)
half-below m n x v h k = grind (arith, le-mul m (n * 2) x h)

two_pow : (c : ℕ) → 2 ^ c * 2 ≡ 2 ^ (c + 1)
two_pow c = sym (pow-suc 2 c) ∙ ap (λ k. 2 ^ k) (omega arith)

IsCut-half : (v m c : ℕ) → 15 < m → IsCut v m c → IsCut v (m / 2) (c + 1)
IsCut-half v m c h k = record {
  above =
      subst (λ y. m / 2 * y ≤ v) (two_pow c) (half-above m (m / 2) (2 ^ c) v (omega arith) k.above);
  below =
      subst (λ y. v < (m / 2 + 1) * y) (two_pow c)
        (half-below (m + 1) (m / 2 + 1) (2 ^ c) v (omega arith) k.below);
  leading = inl (omega arith);
}

msb_loop-IsCut :
    (fuel m c v : ℕ)
    → m < 16 * 2 ^ fuel
    → IsCut v m c
    → ((msb_loop fuel m c).0 < 16) × IsCut v (msb_loop fuel m c).0 (msb_loop fuel m c).1
unfolding msb_loop
msb_loop-IsCut zero m c v h k = (omega arith, k)
msb_loop-IsCut (suc fuel) m c v h k =
    if-cases (λ (r : ℕ × ℕ). (r.0 < 16) × IsCut v r.0 r.1) (ltb 15 m) _ _
      (λ e. msb_loop-IsCut fuel (m / 2) (c + 1) v (omega arith) (IsCut-half v m c (ground arith) k))
      (λ e. (ground arith, k))

near :
    (a m x v : ℕ)
    → 8 * a ≤ 9 * m
    → 8 * (m + 1) ≤ 9 * a
    → m * x ≤ v
    → v < (m + 1) * x
    → (8 * (a * x) ≤ 9 * v) × (8 * v ≤ 9 * (a * x))
near a m x v h k l q =
    (grind (arith, le-mul (8 * a) (9 * m) x h), grind (arith, le-mul (8 * (m + 1)) (9 * a) x k))

rounded-near :
    (v m c : ℕ)
    → IsCut v m c
    → (8 * (adjusted m * 2 ^ c) ≤ 9 * v) × (8 * v ≤ 9 * (adjusted m * 2 ^ c))
rounded-near v m c k = elim k.leading [
  | inl h ↦ near (adjusted m) m (2 ^ c) v (ground arith) (ground arith) k.above k.below
  | inr e ↦
      let same : v ≡ m =
        let x = subst (λ c. m * 2 ^ c ≤ v) e k.above in
        let y = subst (λ c. v < (m + 1) * 2 ^ c) e k.below in omega (arith, x, y) in
      let unit : adjusted m * 2 ^ c ≡ adjusted m = ap (λ c. adjusted m * 2 ^ c) e ∙ omega arith in
      (rw (unit, same) (ground arith), rw (unit, same) (ground arith))
]

-- `getMSB4` moves a number below 15 * 2 ^ 59 by no more than an eighth or a ninth of it.
pub get_msb4-near : (v : ℕ) → v < 15 * 2 ^ 59 → (8 * get_msb4 v ≤ 9 * v) × (8 * v ≤ 9 * get_msb4 v)
unfolding get_msb4
get_msb4-near v h =
    let k =
      msb_loop-IsCut 64 v 0 v (omega arith)
        (record { above = omega arith; below = omega arith; leading = inr refl }) in
    let n = rounded-near v (msb_loop 64 v 0).0 (msb_loop 64 v 0).1 k.1 in
    let small : adjusted (msb_loop 64 v 0).0 * 2 ^ (msb_loop 64 v 0).1 % 2 ^ 64
        ≡ adjusted (msb_loop 64 v 0).0 * 2 ^ (msb_loop 64 v 0).1 =
      omega (arith, n.0) in
    rw small n
