-- ===== src/Mpeg/Detect/Mp3/Passes.antt =====
-- What a pass of the loop of `check_for_mp3` can come to, and the chains of frames that it follows.

use mcaster1dnas.Base.{
  ℕ, Bool-cases, Bytes, Option, arith, drop, if◌then◌else◌, inl, inr, leb, length, ltb, none, refl,
  some, suc, ◌&&◌, ◌+◌, ◌-◌, ◌<◌, ◌==◌, ◌||◌, ◌∷◌, ◌≡◌, ◌≤◌, ◌⊎◌,
}
use mcaster1dnas.Mpeg.Detect.Answers.{Answer, absent, detected, wait}
use mcaster1dnas.Mpeg.Header.{mpeg_frame_length, frame_samplerate}
use mcaster1dnas.Mpeg.Sync.{Sync}
use mcaster1dnas.Mpeg.Detect.Mp3.{frame_next, Tally, counted, go, mp3_frames, stop}

-- `k` frames follow one another, each with the sync byte and the second byte `b1`, at one sample
-- rate; the length that the header of each gives leads to the next, and is within the block.
pub data IsChain (b1 rate : ℕ) : ℕ → Bytes → Type 0 where
  nil : {p : Bytes} → IsChain b1 rate 0 p
  cons :
      {k : ℕ} (h0 h1 h2 n : ℕ) (p : Bytes) (mp mp' : Sync)
      → h0 ≡ 255
      → h1 ≡ b1
      → mpeg_frame_length mp h1 h2 ≡ (some n, mp')
      → frame_samplerate h1 h2 ≡ rate
      → 0 < n
      → n ≤ length p + 3
      → IsChain b1 rate k (drop n (h0 ∷ h1 ∷ h2 ∷ p))
      → IsChain b1 rate (suc k) (h0 ∷ h1 ∷ h2 ∷ p)

frame_next-cases :
    (rate remaining h1 h2 : ℕ) (r : Option ℕ × Sync)
    → ((mp : Sync) × (frame_next rate remaining h1 h2 r ≡ stop absent mp))
      ⊎ ((mp : Sync) × (frame_next rate remaining h1 h2 r ≡ stop wait mp))
      ⊎ ((n : ℕ) × (mp : Sync) × (frame_next rate remaining h1 h2 r ≡ go n mp)
          × (r ≡ (some n, mp))
          × (0 < n)
          × (n ≤ remaining)
          × (frame_samplerate h1 h2 ≡ rate))
unfolding frame_next
frame_next-cases rate remaining h1 h2 (none, mp) = inl (mp, refl)
frame_next-cases rate remaining h1 h2 (some n, mp) = elim (Bool-cases ((n == 0) || ltb 3000 n)) [
  | inl e ↦ inl (mp, rw e)
  | inr e ↦ elim (Bool-cases (ltb remaining n)) [
    | inl f ↦ inr (inl (mp, rw (e, f)))
    | inr f ↦ elim (Bool-cases (rate == frame_samplerate h1 h2)) [
      | inl g ↦ inr (inr (n, mp, rw (e, f, g), refl, ground arith, ground arith, ground arith))
      | inr g ↦ inl (mp, rw (e, f, g))
    ]
  ]
]

-- The result of a pass.
abbrev pub Stops : Answer × Sync × Tally → Type 0
Stops r = (r.0 ≡ wait) ⊎ (r.0 ≡ absent)

pub record GoesOn (fuel b1 rate checking : ℕ) (mp : Sync) (h0 h1 h2 : ℕ) (fh : Bytes) (t : Tally)
    (r : Answer × Sync × Tally) : Type 0 where
  pub n : ℕ
  pub mp' : Sync
  pub sync : h0 ≡ 255
  pub header : h1 ≡ b1
  pub len : mpeg_frame_length mp h1 h2 ≡ (some n, mp')
  pub moves : 0 < n
  pub within : n ≤ length fh + 3
  pub same_rate : frame_samplerate h1 h2 ≡ rate
  pub five : 2 ≤ length fh
  pub result : r ≡ (
      if checking == 1
      then (detected, mp', counted t mp')
      else mp3_frames fuel b1 rate (checking - 1) mp' (drop n (h0 ∷ h1 ∷ h2 ∷ fh)) (counted t mp'))

pub pass-cases :
    (fuel b1 rate checking : ℕ) (mp : Sync) (h0 h1 h2 : ℕ) (fh : Bytes) (t : Tally)
    → Stops (mp3_frames (suc fuel) b1 rate checking mp (h0 ∷ h1 ∷ h2 ∷ fh) t)
      ⊎ GoesOn fuel b1 rate checking mp h0 h1 h2 fh t
          (mp3_frames (suc fuel) b1 rate checking mp (h0 ∷ h1 ∷ h2 ∷ fh) t)
unfolding mp3_frames
pass-cases fuel b1 rate checking mp h0 h1 h2 fh t = elim (Bool-cases (leb (length fh) 1)) [
  | inl e ↦ inl (inl (rw e))
  | inr e ↦ elim (Bool-cases ((h0 == 255) && (h1 == b1))) [
    | inr f ↦ inl (inr (rw (e, f)))
    | inl f ↦ elim (frame_next-cases rate (length fh + 3) h1 h2 (mpeg_frame_length mp h1 h2)) [
      | inl (mp', q) ↦ inl (inr (rw (e, f, q)))
      | inr (inl (mp', q)) ↦ inl (inl (rw (e, f, q)))
      | inr (inr (n, mp', q, l, m, w, s)) ↦ inr (record {
        n = n;
        mp' = mp';
        sync = ground arith;
        header = ground arith;
        len = l;
        moves = m;
        within = w;
        same_rate = s;
        five = ground arith;
        result = rw (e, f, q);
      })
    ]
  ]
]
