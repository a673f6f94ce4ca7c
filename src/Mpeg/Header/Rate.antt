-- ===== src/Mpeg/Header/Rate.antt =====
-- When `get_mpeg_frame_length` refuses a frame for its sample rate.
use mcaster1dnas.Base.{
  ℕ, Bool, Bool-cases, Option, arith, false, if◌then◌else◌, inl, inr, none, not, refl, some, true,
  ◌&&◌, ◌==◌, ◌||◌, ◌∙◌, ◌≡◌, ◌≢◌, ◌⊎◌, if-cases,
}
use mcaster1dnas.Mpeg.Header.{frame_samplerate, mpeg_frame_length}
use mcaster1dnas.Mpeg.Sync.{Sync, IsReady}

rate_outcome :
    (mp mp' : Sync) (z m : Bool) (rate n : ℕ) (r : Option ℕ × Sync)
    → r ≡ (if (z || (m && not (mp.samplerate == rate))) then (none, mp) else (some n, mp'))
    → mp'.samplerate ≡ mp.samplerate
    → ((r ≡ (none, mp)) × (z ≡ false → mp.samplerate ≢ rate))
      ⊎ ((n : ℕ) × (mp' : Sync) × (r ≡ (some n, mp')) × (mp'.samplerate ≡ mp.samplerate))
rate_outcome mp mp' true m rate n r e k = inl (e, λ q. cc)
rate_outcome mp mp' false false rate n r e k = inr (n, mp', e, k)
rate_outcome mp mp' false true rate n r e k = elim (Bool-cases (mp.samplerate == rate)) [
  | inl q ↦ inr (n, mp', e ∙ rw q, k)
  | inr q ↦ inl (e ∙ rw q, λ _. ground arith)
]

-- Either the state is left and, if the frame has a sample rate, it is another one; or there is a
-- length, and the rate that is set stays.
pub mpeg_frame_length-cases :
    (mp : Sync) (b1 b2 : ℕ)
    → ((mpeg_frame_length mp b1 b2 ≡ (none, mp))
        × ((frame_samplerate b1 b2 == 0) ≡ false → mp.samplerate ≢ frame_samplerate b1 b2))
      ⊎ ((n : ℕ) × (mp' : Sync) × (mpeg_frame_length mp b1 b2 ≡ (some n, mp'))
          × (mp'.samplerate ≡ mp.samplerate))
unfolding mpeg_frame_length
mpeg_frame_length-cases mp b1 b2 =
    rate_outcome mp _ _ (not (mp.mask == 0)) (frame_samplerate b1 b2) _ _ refl refl

pub mpeg_frame_length-IsReady :
    (mp : Sync) (b1 b2 : ℕ) → IsReady mp → IsReady (mpeg_frame_length mp b1 b2).1
unfolding mpeg_frame_length
mpeg_frame_length-IsReady mp b1 b2 h =
    if-cases (λ (r : Option ℕ × Sync). IsReady r.1)
      ((frame_samplerate b1 b2 == 0)
        || (not (mp.mask == 0) && not (mp.samplerate == frame_samplerate b1 b2)))
      _ _ (λ _. h) (λ _. record { handler = h.handler })
