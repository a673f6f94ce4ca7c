-- ===== src/Mpeg/Handle/Tests.antt =====
-- Instances of the theorems on the handlers of a frame.
use mcaster1dnas.Mpeg.Header.{mpeg_frame_length, bitrate_at, samples_per_frame, length_at}
use mcaster1dnas.Base.{Bytes, none, refl, replicate, some, ◌∷◌, ◌≡◌, []}
use mcaster1dnas.Mpeg.Sync.{setup, Sync, mpeg_frame}
use mcaster1dnas.Mpeg.Handle.{
  process_frame, after_length, frame, handle_aac_frame, handle_mpeg, take_mpeg,
}

-- A parser for MPEG audio at another sample rate, and a frame of 24 bytes with one byte behind it.
abbrev audio : Sync
audio = record setup { mask = 0xFFFE0000; samplerate = 44100; process = mpeg_frame }

abbrev block : Bytes
block = 0xFF ∷ 0xF3 ∷ 0x14 ∷ replicate 22 0

accepted :
    process_frame none audio block
    ≡ some (frame 24, record audio { samplerate = 24000; sample_count = 576; bitrate = 8 })
unfolding process_frame handle_mpeg after_length take_mpeg mpeg_frame_length bitrate_at
    samples_per_frame length_at setup
accepted = refl

-- A change of the sample rate within AAC leaves the rate that the parser had.
aac_rate_kept :
    (handle_aac_frame none audio (0xFF ∷ 0xF1 ∷ 0x4C ∷ 0x80 ∷ 1 ∷ 0 ∷ 0 ∷ 0 ∷ [])).1.samplerate
    ≡ 44100
unfolding handle_aac_frame setup
aac_rate_kept = refl
