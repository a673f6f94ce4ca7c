-- ===== src/Mpeg/Detect/Usac.antt =====
-- When `check_for_usac` finds USAC in LOAS, and when it reads outside the block.
use mcaster1dnas.Mpeg.Sync.{Sync}
use mcaster1dnas.Mpeg.Detect.Answers.{wait, and_read, absent, overrun, detected, stuck, Answer}
use mcaster1dnas.Base.{
  ℕ, Bool-cases, Bytes, Option-cases, arith, get_elem?, get_elem?-none, get_elem?-some, inl, inr,
  length, ltb, some, suc, ◌%◌, ◌&&◌, ◌*◌, ◌+◌, ◌/◌, ◌==◌, ◌∙◌, ◌≡◌, ◌≤◌, ◌⊎◌, refl, sym, zero, ◌≢◌,
}
use mcaster1dnas.Mpeg.Detect.{usac_frames, check_for_usac, usac_answer}

-- `IsChain p k i`: `k` frames follow one another from the offset `i` on, each with the eleven bits
-- of its marker, and the length in its header leads to the next.
pub data IsChain (p : Bytes) : ℕ → ℕ → Type 0 where
  nil : {i : ℕ} → IsChain p 0 i
  cons :
      {k i : ℕ} (b1 b2 : ℕ)
      → get_elem? p i ≡ some 0x56
      → get_elem? p (i + 1) ≡ some b1
      → b1 / 32 ≡ 7
      → get_elem? p (i + 2) ≡ some b2
      → IsChain p k (i + (b1 % 32 * 256 + b2 + 3))
      → IsChain p (suc k) i

-- A step of the loop that is neither at the end of the block nor without a marker.
usac_step :
    (k i : ℕ) (p : Bytes)
    → (usac_frames (suc k) i p ≡ wait)
      ⊎ (usac_frames (suc k) i p ≡ absent)
      ⊎ ((usac_frames (suc k) i p ≡ overrun) × (length p ≡ i + 2))
      ⊎ ((b1 : ℕ) × (b2 : ℕ) × (get_elem? p i ≡ some 0x56)
          × (get_elem? p (i + 1) ≡ some b1)
          × (b1 / 32 ≡ 7)
          × (get_elem? p (i + 2) ≡ some b2)
          × (usac_frames (suc k) i p ≡ usac_frames k (i + (b1 % 32 * 256 + b2 + 3)) p))
unfolding usac_frames
usac_step k i p = elim (Bool-cases (ltb (length p) (i + 2))) [
  | inl e ↦ inl (rw (e, usac_frames))
  | inr e ↦
      let (b0, e0) = get_elem?-some p i (ground arith) in
      let (b1, e1) = get_elem?-some p (i + 1) (ground arith) in
      elim (Bool-cases ((b0 == 0x56) && (b1 / 32 == 7))) [
        | inl m ↦ elim (Option-cases (get_elem? p (i + 2))) [
          | inl e2 ↦ inr (
              inr (
                inl (
                  rw (e, e0, e1, m, e2, usac_frames, and_read),
                  ground (arith, get_elem?-none p (i + 2) e2),
                )))
          | inr (b2, e2) ↦ inr (
              inr (
                inr (
                  b1,
                  b2,
                  e0 ∙ ground arith,
                  e1,
                  ground arith,
                  e2,
                  rw (e, e0, e1, m, e2, usac_frames, and_read),
                )))
        ]
        | inr m ↦ inr (inl (rw (e, e0, e1, m, usac_frames, and_read)))
      ]
]

frames-IsChain : (k i : ℕ) (p : Bytes) → usac_frames k i p ≡ detected → IsChain p k i
unfolding usac_frames
frames-IsChain zero i p h = nil
frames-IsChain (suc k) i p h = elim (usac_step k i p) [
  | inl e ↦ absurd (ground arith)
  | inr (inl e) ↦ absurd (ground arith)
  | inr (inr (inl (e, q))) ↦ absurd (ground arith)
  | inr (inr (inr (b1, b2, e0, e1, m, e2, q))) ↦
      cons b1 b2 e0 e1 m e2 (frames-IsChain k (i + (b1 % 32 * 256 + b2 + 3)) p (sym q ∙ h))
]

frames-overrun :
    (k i : ℕ) (p : Bytes) → usac_frames k i p ≡ overrun → (j : ℕ) × (i ≤ j) × (length p ≡ j + 2)
unfolding usac_frames
frames-overrun zero i p h = absurd (ground arith)
frames-overrun (suc k) i p h = elim (usac_step k i p) [
  | inl e ↦ absurd (ground arith)
  | inr (inl e) ↦ absurd (ground arith)
  | inr (inr (inl (e, q))) ↦ (i, omega arith, q)
  | inr (inr (inr (b1, b2, e0, e1, m, e2, q))) ↦
      let (j, le, l) = frames-overrun k (i + (b1 % 32 * 256 + b2 + 3)) p (sym q ∙ h) in
      (j, omega (arith, le), l)
]

frames-not_stuck : (k i : ℕ) (p : Bytes) → usac_frames k i p ≢ stuck
unfolding usac_frames
frames-not_stuck zero i p h = ground arith
frames-not_stuck (suc k) i p h = elim (usac_step k i p) [
  | inl e ↦ ground arith
  | inr (inl e) ↦ ground arith
  | inr (inr (inl (e, q))) ↦ ground arith
  | inr (inr (inr (b1, b2, e0, e1, m, e2, q))) ↦
      frames-not_stuck k (i + (b1 % 32 * 256 + b2 + 3)) p (sym q ∙ h)
]

overrun-cases : (a : Answer) → (a ≡ overrun) ⊎ (a ≢ overrun)
overrun-cases detected = inr (λ h. absurd (ground arith))
overrun-cases absent = inr (λ h. absurd (ground arith))
overrun-cases wait = inr (λ h. absurd (ground arith))
overrun-cases stuck = inr (λ h. absurd (ground arith))
overrun-cases overrun = inl refl

answer_kept : (mp : Sync) (a : Answer) → (usac_answer mp a).0 ≡ a
unfolding usac_answer
answer_kept mp detected = refl
answer_kept mp absent = refl
answer_kept mp wait = refl
answer_kept mp overrun = refl
answer_kept mp stuck = refl

-- Where `check_for_usac` finds the format, the block begins with a chain of as many frames as are
-- to be checked.
pub check_for_usac-IsChain :
    (mp : Sync) (p : Bytes) → (check_for_usac mp p).0 ≡ detected → IsChain p mp.chkframes 0
unfolding check_for_usac
check_for_usac-IsChain mp p h = frames-IsChain mp.chkframes 0 p (sym (answer_kept mp _) ∙ h)

-- `check_for_usac` always answers, and reads outside the block only where the block ends two bytes
-- into a frame.
pub check_for_usac-Answers :
    (mp : Sync) (p : Bytes)
    → ((check_for_usac mp p).0 ≢ stuck)
      × (((check_for_usac mp p).0 ≢ overrun) ⊎ ((j : ℕ) × (length p ≡ j + 2)))
unfolding check_for_usac
check_for_usac-Answers mp p = (
  λ h. frames-not_stuck mp.chkframes 0 p (sym (answer_kept mp _) ∙ h),
  elim (overrun-cases (usac_frames mp.chkframes 0 p)) [
    | inl e ↦ let (j, le, l) = frames-overrun mp.chkframes 0 p e in inr (j, l)
    | inr e ↦ inl (λ h. e (sym (answer_kept mp _) ∙ h))
  ],
)
