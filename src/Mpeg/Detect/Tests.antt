-- ===== src/Mpeg/Detect/Tests.antt =====
-- Runs of the checks for a format, and instances of their theorems.

use mcaster1dnas.Base.{Bytes, [], refl, replicate, ◌∷◌, ◌≡◌}
use mcaster1dnas.Mpeg.Sync.{setup, Sync}
use mcaster1dnas.Mpeg.Detect.Answers.{detected, overrun}
use mcaster1dnas.Mpeg.Detect.{
  check_for_ts, check_for_usac, get_msb4, msb_loop, ts_lengths, ts_packets, usac_answer,
  usac_frames,
}
use mcaster1dnas.Mpeg.Detect.Ts.{IsPastEnd, check_for_ts-IsPastEnd}

msb4_runs : (get_msb4 127 ≡ 128) × (get_msb4 95 ≡ 96) × (get_msb4 66 ≡ 64)
unfolding get_msb4 msb_loop
msb4_runs = (refl, refl, refl)

abbrev packets : Bytes
packets = replicate 600 0x47

ts_found : (check_for_ts setup packets).0 ≡ detected
unfolding check_for_ts ts_lengths ts_packets setup
ts_found = refl

-- A block of one packet of 188 bytes makes `check_for_ts` read the byte behind its end.
abbrev packet : Bytes
packet = replicate 188 0x47

ts_overrun : (check_for_ts setup packet).0 ≡ overrun
unfolding check_for_ts ts_lengths ts_packets setup
ts_overrun = refl

check_for_ts-IsPastEnd_example : IsPastEnd packet
check_for_ts-IsPastEnd_example = check_for_ts-IsPastEnd setup packet ts_overrun

abbrev one_frame : Sync
one_frame = record setup { chkframes = 1 }

abbrev loas : Bytes
loas = 0x56 ∷ 0xE0 ∷ 0x02 ∷ 0 ∷ 0 ∷ []

usac_found : (check_for_usac one_frame loas).0 ≡ detected
unfolding check_for_usac usac_frames usac_answer setup
usac_found = refl

-- Two bytes of a frame make `check_for_usac` read the third.
usac_overrun : (check_for_usac one_frame (0x56 ∷ 0xE0 ∷ [])).0 ≡ overrun
unfolding check_for_usac usac_frames usac_answer setup
usac_overrun = refl
