-- ===== src/Mpeg/Detect/Aac/Tests.antt =====
-- Runs of the check for AAC, and instances of its theorems.

use mcaster1dnas.Base.{ℕ, Bytes, [], arith, refl, ◌*◌, ◌++◌, ◌-◌, ◌/◌, ◌∷◌, ◌≡◌, ◌⊎◌}
use mcaster1dnas.Mpeg.Sync.{setup, Sync}
use mcaster1dnas.Mpeg.Detect.Answers.{absent, detected, wait}
use mcaster1dnas.Mpeg.Detect.Aac.{
  check_for_aac, aac_answer, aac_frames, blocks_of, frame_len_of, same_frame,
}
use mcaster1dnas.Mpeg.Detect.Aac.Total.{check_for_aac-Answers}

-- A frame of 8 bytes, at 44100 Hz with two channels.
abbrev adts : Bytes
adts = 0xFF ∷ 0xF1 ∷ 0x50 ∷ 0x80 ∷ 1 ∷ 0 ∷ 0 ∷ 0 ∷ []

abbrev block : Bytes
block = adts ++ adts

-- The payload of a frame has seven bytes less than the frame.
abbrev by_blocks : ℕ → ℕ → ℕ → ℕ → ℕ
by_blocks bytes frames blocks rate = (bytes - 7 * frames) * rate * 8 / (blocks * 1024 * 1000)

abbrev one_frame : Sync
one_frame = record setup { chkframes = 1 }

aac_found : (check_for_aac by_blocks one_frame block).0 ≡ detected
unfolding check_for_aac aac_frames aac_answer frame_len_of blocks_of same_frame setup
aac_found = refl

check_for_aac-Answers_example :
    ((check_for_aac by_blocks one_frame block).0 ≡ wait)
    ⊎ ((check_for_aac by_blocks one_frame block).0 ≡ absent)
    ⊎ ((check_for_aac by_blocks one_frame block).0 ≡ detected)
check_for_aac-Answers_example = check_for_aac-Answers by_blocks one_frame block (omega arith)
