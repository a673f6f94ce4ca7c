-- ===== src/Mpeg/Detect/Mp3.antt =====
-- src/mpeg.c, lines 410 to 479: `check_for_mp3`. Its fuel is the number of bytes: a frame that is
-- passed has at least one.
pub mod Passes
pub mod Total
pub mod Ready
mod Tests
use mcaster1dnas.Mpeg.Handle.{byte}
use Prim.Native.Nat.{bit_or}
use mcaster1dnas.Base.{
  ℕ, Bytes, Option, drop, if◌then◌else◌, leb, length, ltb, none, not, some, suc, true, zero, ◌%◌,
  ◌&&◌, ◌+◌, ◌-◌, ◌/◌, ◌==◌, ◌||◌, ◌∷◌,
}
use mcaster1dnas.Mpeg.Detect.Answers.{Answer, absent, detected, stuck, wait}
use mcaster1dnas.Mpeg.Header.{mpeg_frame_length, frame_layer, frame_samplerate, frame_version}
use mcaster1dnas.Mpeg.Sync.{Sync, mpeg, mpeg_frame}

-- The frames counted and the sum of their bitrates.
pub record Tally : Type 0 where
  pub frames : ℕ
  pub bitrates : ℕ

-- What a pass of the loop does with a frame: it ends, or goes on behind the frame.
pub data Next : Type 0 where
  stop : Answer → Sync → Next
  go : ℕ → Sync → Next

-- The tests of a pass once the length is known: `remaining` bytes, and the sample rate of the first
-- frame, which is asked of each.
pub frame_next : ℕ → ℕ → ℕ → ℕ → Option ℕ × Sync → Next
frame_next rate remaining h1 h2 (none, mp) = stop absent mp
frame_next rate remaining h1 h2 (some frame_len, mp) =
    if (frame_len == 0) || ltb 3000 frame_len
    then stop absent mp
    else if ltb remaining frame_len
    then stop wait mp
    else if not (rate == frame_samplerate h1 h2)
    then stop absent mp
    else go frame_len mp

-- A frame with its bitrate, counted.
abbrev pub counted : Tally → Sync → Tally
counted t mp = record { frames = t.frames + 1; bitrates = t.bitrates + mp.bitrate }

-- `checking` frames from `fh` on, with the second byte `b1` of the first one. A `checking` of 0
-- stands for every count that is not positive, with which the loop ends only at the end of the
-- data or at another header.
pub mp3_frames : ℕ → ℕ → ℕ → ℕ → Sync → Bytes → Tally → Answer × Sync × Tally
unfolding frame_next
mp3_frames zero b1 rate checking mp fh t = (stuck, mp, t)
mp3_frames (suc fuel) b1 rate checking mp (h0 ∷ h1 ∷ h2 ∷ fh) t =
    if leb (length fh) 1
    then (wait, mp, t)
    else if not ((h0 == 255) && (h1 == b1))
    then (absent, mp, t)
    else elim (frame_next rate (length fh + 3) h1 h2 (mpeg_frame_length mp h1 h2)) [
      | stop a mp' ↦ (a, mp', t)
      | go n mp' ↦
          let rest =
            mp3_frames fuel b1 rate (checking - 1) mp' (drop n (h0 ∷ h1 ∷ h2 ∷ fh))
              (counted t mp') in
          if checking == 1 then (detected, mp', counted t mp') else rest
    ]
mp3_frames (suc fuel) b1 rate checking mp fh t = (wait, mp, t)

-- What the end of `check_for_mp3` makes of the loop's answer.
pub mp3_answer : ℕ → Answer × Sync × Tally → Answer × Sync
mp3_answer b3 (detected, mp, t) = (
  detected,
  record mp {
    marker = 0xFF;
    mask = 0xFFFE0000;
    bitrate = t.bitrates / t.frames;
    channels = if b3 / 64 % 4 == 3 then 1 else 2;
    format = mpeg;
    process = mpeg_frame;
    changed = true;
  },
)
mp3_answer b3 (other, mp, t) = (other, mp)

-- The part of `check_for_mp3` for a header with a version and a layer, and a sample rate.
pub mp3_search : Sync → Bytes → Answer × Sync
unfolding mp3_frames mp3_answer
mp3_search mp p =
    let rate = frame_samplerate (byte p 1) (byte p 2) in
    mp3_answer (byte p 3) (
      mp3_frames (length p) (byte p 1) rate mp.chkframes (record mp { samplerate = rate }) p
        (record { frames = 0; bitrates = 0 }))

-- The version joins the settings.
abbrev pub with_version : Sync → Bytes → Sync
with_version mp p = record mp { version = bit_or mp.version (frame_version (byte p 1)) }

-- `check_for_mp3`, for a block of at least ten bytes.
pub check_for_mp3 : Sync → Bytes → Answer × Sync
unfolding mp3_search
check_for_mp3 mp p =
    let b1 = byte p 1 in
    if (frame_layer b1 == 0) || ltb b1 0xE0 || (frame_version b1 == 1)
    then (absent, mp)
    else if frame_samplerate b1 (byte p 2) == 0
    then (absent, with_version mp p)
    else mp3_search (with_version mp p) p
