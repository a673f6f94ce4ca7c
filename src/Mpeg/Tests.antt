-- ===== src/Mpeg/Tests.antt =====
-- Instances of the theorems on the settings of a parser and on the headers of frames.
use mcaster1dnas.Base.{ℕ, ◌<◌, arith, none, refl, some, ◌≡◌, ◌≤◌, ◌⊎◌, Bytes, replicate}
use mcaster1dnas.Mpeg.Run.{Reached-process_frame, begun, initial}
use mcaster1dnas.Mpeg.Initial.{get_initial_frame, after_tags, formats, noted, or_else}
use mcaster1dnas.Mpeg.Detect.{check_for_ts, ts_lengths, ts_packets}
use mcaster1dnas.Mpeg.Handle.{process_frame, Verdict}
use mcaster1dnas.Mpeg.Handle.Bounds.{IsWithin}
use mcaster1dnas.Mpeg.Sync.{setup, Sync}
use mcaster1dnas.Mpeg.Header.Length.{mpeg_frame_length-bounds}
use mcaster1dnas.Mpeg.Header.{mpeg_frame_length, bitrate_at, length_at, samples_per_frame}

-- 417 bytes of MPEG 1 layer III, at 128 kbit/s and 44100 Hz.
layer3_length : (mpeg_frame_length setup 0xFB 0x90).0 ≡ some 417
unfolding mpeg_frame_length bitrate_at samples_per_frame length_at setup
layer3_length = refl

mpeg_frame_length-bounds_example :
    ((mpeg_frame_length setup 0xFB 0x90).0 ≡ none)
    ⊎ ((n : ℕ) × ((mpeg_frame_length setup 0xFB 0x90).0 ≡ some n)
        × ((n ≡ 0) ⊎ ((24 ≤ n) × (n ≤ 2881))))
mpeg_frame_length-bounds_example = mpeg_frame_length-bounds setup 0xFB 0x90 (omega arith)

-- A transport stream, from its first packet on.
abbrev packets : Bytes
packets = replicate 600 0x47

abbrev no_estimate : ℕ → ℕ → ℕ → ℕ → ℕ
no_estimate bytes frames blocks rate = 0

abbrev streaming : Sync
streaming = (get_initial_frame no_estimate setup packets).1

streaming-mask : streaming.mask ≡ 0xFF000000
unfolding get_initial_frame after_tags formats or_else noted check_for_ts ts_lengths ts_packets
    setup
streaming-mask = refl

streaming-sample_count : streaming.sample_count < 2147483648
unfolding get_initial_frame after_tags formats or_else noted check_for_ts ts_lengths ts_packets
    setup
streaming-sample_count = omega arith

Reached-process_frame_example :
    (r : Verdict × Sync) × (process_frame none streaming packets ≡ some r) × IsWithin packets r.0
Reached-process_frame_example =
    Reached-process_frame no_estimate streaming none packets (initial packets begun)
      (λ e. let m = streaming-mask in absurd (ground arith)) (streaming-sample_count)
