-- ===== src/Mpeg/Detect/Aac.antt =====
-- src/mpeg.c, lines 345 to 408: `check_for_aac`. Its fuel is the number of bytes: a frame that is
-- passed has at least one. The estimate of the bitrate, in floating point, is an argument: of the
-- frames' lengths in all, their number, the blocks and the sample rate.
pub mod Total
pub mod Ready
mod Tests
use mcaster1dnas.Mpeg.Handle.{byte}
use mcaster1dnas.Base.{
  ℕ, Bool, Bytes, Option, drop, false, get_elem?, get_or, if◌then◌else◌, leb, length, ltb, none,
  some, suc, true, zero, ◌%◌, ◌&&◌, ◌*◌, ◌+◌, ◌-◌, ◌/◌, ◌==◌, ◌||◌, ◌∷◌,
}
use mcaster1dnas.Mpeg.Detect.{get_msb4}
use mcaster1dnas.Mpeg.Detect.Answers.{Answer, absent, detected, overrun, stuck, wait}
use mcaster1dnas.Mpeg.Header.{aac_frame_len, aacp_num_channels, aacp_sample_freq, frame_layer}
use mcaster1dnas.Mpeg.Sync.{Sync, aac, aac_frame}

-- `aac_frames`, and what `aac_bytes` is made of.
pub record Count : Type 0 where
  pub frames : ℕ
  pub bytes : ℕ
  pub blocks : ℕ

-- `get_aac_frame_len`, with its reads; `none` is a read outside the block.
pub frame_len_of : Bytes → Option ℕ
frame_len_of (h0 ∷ h1 ∷ h2 ∷ h3 ∷ h4 ∷ h5 ∷ fh) = some (aac_frame_len h3 h4 h5)
frame_len_of _ = none

-- Whether the frame at `fh` has the bytes of the first one that all frames share.
pub same_frame : ℕ → ℕ → ℕ → Bytes → Option Bool
same_frame p1 p2 p3 (h0 ∷ h1 ∷ h2 ∷ h3 ∷ fh) =
    some ((h0 == 255) && (h1 == p1) && (h2 == p2) && (h3 / 16 == p3 / 16))
same_frame p1 p2 p3 _ = none

-- The reads of a pass behind the length: the next frame's bytes, and the blocks of this one.
pub blocks_of : ℕ → ℕ → ℕ → ℕ → Bytes → Option (Option ℕ)
unfolding same_frame
blocks_of p1 p2 p3 n fh = elim (same_frame p1 p2 p3 (drop n fh)) [
  | none ↦ none
  | some false ↦ some none
  | some true ↦ elim (get_elem? fh 6) [ none ↦ none | some h6 ↦ some (some (h6 % 4 + 1)) ]
]

-- The frames from `fh` on, of which `checking` are wanted; a count below 0 is 0.
pub aac_frames : ℕ → ℕ → ℕ → ℕ → ℕ → Bytes → Count → Answer × Count
unfolding frame_len_of blocks_of
aac_frames zero p1 p2 p3 checking fh t = (stuck, t)
aac_frames (suc fuel) p1 p2 p3 checking fh t = elim (frame_len_of fh) [
  | none ↦ (overrun, t)
  | some n ↦
      if (n == 0) || ltb 8192 n
      then (absent, t)
      else if leb (length fh) (n + 5)
      then (if ltb 0 checking then wait else detected, t)
      else elim (blocks_of p1 p2 p3 n fh) [
        | none ↦ (overrun, t)
        | some none ↦ (absent, t)
        | some (some blocks) ↦
            aac_frames fuel p1 p2 p3 (checking - 1) (drop n fh)
              (record { frames = t.frames + 1; bytes = t.bytes + n; blocks = t.blocks + blocks })
      ]
]

module _ (estimate : ℕ → ℕ → ℕ → ℕ → ℕ) where
  -- The end of `check_for_aac` for an answer of the loop, the sample rate and the channels.
  pub aac_answer : Sync → ℕ → ℕ → Answer × Count → Answer × Sync
  aac_answer mp rate channels (detected, t) =
      if (rate == 0) || (channels == 0) then (absent, mp) else (
        detected,
        record mp {
          marker = 0xFF;
          mask = 0xFFFEFDC0;
          samplerate = rate;
          channels = channels;
          bitrate = get_msb4 (estimate t.bytes t.frames t.blocks rate);
          process = aac_frame;
          format = aac;
          changed = true;
        },
      )
  aac_answer mp rate channels (other, t) = (other, mp)

  -- `check_for_aac`, for a block of at least ten bytes.
  pub check_for_aac : Sync → Bytes → Answer × Sync
  unfolding aac_frames aac_answer
  check_for_aac mp p =
      let b1 = byte p 1 in
      let b2 = byte p 2 in
      let b3 = byte p 3 in
      if (frame_layer b1 == 0) && leb 0xF0 b1 && leb b1 0xF9
      then aac_answer mp (get_or aacp_sample_freq (b2 / 4 % 16) 0)
          (get_or aacp_num_channels ((b2 * 256 + b3) / 64 % 8) 0)
          (aac_frames (length p) b1 b2 b3 mp.chkframes p
            (record { frames = 0; bytes = 0; blocks = 0 }))
      else (absent, mp)
