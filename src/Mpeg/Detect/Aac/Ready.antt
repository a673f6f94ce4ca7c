-- ===== src/Mpeg/Detect/Aac/Ready.antt =====
-- The check for AAC sets a handler together with the bits to match.
use mcaster1dnas.Mpeg.Handle.{byte}
use mcaster1dnas.Mpeg.Header.{frame_layer, aacp_num_channels, aacp_sample_freq}
use mcaster1dnas.Mpeg.Detect.Answers.{Answer, detected, absent, wait, overrun, stuck}
use mcaster1dnas.Base.{
  ℕ, Bytes, arith, if-cases, inr, leb, ◌&&◌, ◌==◌, ◌||◌, get_or, length, ◌%◌, ◌*◌, ◌+◌, ◌/◌,
}
use mcaster1dnas.Mpeg.Sync.{IsReady, Sync}
use mcaster1dnas.Mpeg.Detect.Aac.{check_for_aac, Count, aac_answer, aac_frames}

module _ (estimate : ℕ → ℕ → ℕ → ℕ → ℕ) where
  aac_answer-IsReady :
      (mp : Sync) (rate channels : ℕ) (r : Answer × Count)
      → IsReady mp
      → IsReady (aac_answer estimate mp rate channels r).1
  unfolding aac_answer
  aac_answer-IsReady mp rate channels (detected, t) h =
      if-cases (λ (r : Answer × Sync). IsReady r.1) ((rate == 0) || (channels == 0)) _ _ (λ _. h)
        (λ _. record { handler = inr (λ e. absurd (ground arith)) })
  aac_answer-IsReady mp rate channels (absent, t) h = h
  aac_answer-IsReady mp rate channels (wait, t) h = h
  aac_answer-IsReady mp rate channels (overrun, t) h = h
  aac_answer-IsReady mp rate channels (stuck, t) h = h

  pub check_for_aac-IsReady :
      (mp : Sync) (p : Bytes) → IsReady mp → IsReady (check_for_aac estimate mp p).1
  unfolding check_for_aac
  check_for_aac-IsReady mp p h =
      if-cases (λ (r : Answer × Sync). IsReady r.1)
        ((frame_layer (byte p 1) == 0) && leb 0xF0 (byte p 1) && leb (byte p 1) 0xF9) _ _
        (λ _.
          aac_answer-IsReady mp (get_or aacp_sample_freq (byte p 2 / 4 % 16) 0)
            (get_or aacp_num_channels ((byte p 2 * 256 + byte p 3) / 64 % 8) 0)
            (aac_frames (length p) (byte p 1) (byte p 2) (byte p 3) mp.chkframes p
              (record { frames = 0; bytes = 0; blocks = 0 }))
            h)
        (λ _. h)
