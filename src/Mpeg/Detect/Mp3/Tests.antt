-- ===== src/Mpeg/Detect/Mp3/Tests.antt =====
-- Runs of the check for MPEG audio, and instances of its theorems.
use mcaster1dnas.Mpeg.Detect.Mp3.Passes.{IsChain}
use mcaster1dnas.Base.{Bytes, arith, refl, replicate, ◌++◌, ◌∷◌, ◌≡◌}
use mcaster1dnas.Mpeg.Sync.{setup, Sync}
use mcaster1dnas.Mpeg.Header.{mpeg_frame_length, bitrate_at, length_at, samples_per_frame}
use mcaster1dnas.Mpeg.Detect.Answers.{detected}
use mcaster1dnas.Mpeg.Detect.Mp3.{check_for_mp3, frame_next, mp3_answer, mp3_frames, mp3_search}
use mcaster1dnas.Mpeg.Detect.Mp3.Total.{check_for_mp3-IsChain}

-- A frame of 24 bytes of MPEG 2 layer III, at 8 kbit/s and 24000 Hz.
abbrev frame : Bytes
frame = 0xFF ∷ 0xF3 ∷ 0x14 ∷ replicate 21 0

abbrev block : Bytes
block = frame ++ frame

abbrev two_frames : Sync
two_frames = record setup { chkframes = 2 }

mp3_found : (check_for_mp3 two_frames block).0 ≡ detected
unfolding check_for_mp3 mp3_search mp3_frames mp3_answer frame_next mpeg_frame_length bitrate_at
    samples_per_frame length_at setup
mp3_found = refl

check_for_mp3-IsChain_example : IsChain 0xF3 24000 2 block
check_for_mp3-IsChain_example =
    check_for_mp3-IsChain two_frames block (omega arith) (omega arith) mp3_found
