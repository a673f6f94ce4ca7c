-- ===== src/Mpeg/Header.antt =====
-- src/mpeg.c, lines 28 to 43, 98 to 99, 162 to 165 and 199 to 275: what the header of a frame
-- says. `b1`, `b2` and so on are the bytes of the frame from its second one on.
pub mod Length
pub mod Rate
use mcaster1dnas.Base.{
  ℕ, Bool, List, Option, [], false, get_elem?, get_or, if◌then◌else◌, none, not, some, true, ◌%◌,
  ◌&&◌, ◌*◌, ◌+◌, ◌-◌, ◌/◌, ◌==◌, ◌^◌, ◌||◌, ◌∷◌,
}
use mcaster1dnas.Mpeg.Sync.{Sync, Format, mpeg}

abbrev pub aacp_sample_freq : List ℕ
aacp_sample_freq =
    96000 ∷ 88200 ∷ 64000 ∷ 48000 ∷ 44100 ∷ 32000 ∷ 24000 ∷ 22050 ∷ 16000 ∷ 12000 ∷ 11025 ∷ 8000 ∷ 0
    ∷ 0 ∷ 0 ∷ 0 ∷ []

abbrev pub aacp_num_channels : List ℕ
aacp_num_channels = 0 ∷ 1 ∷ 2 ∷ 3 ∷ 4 ∷ 5 ∷ 6 ∷ 8 ∷ 0 ∷ 0 ∷ 0 ∷ 0 ∷ 0 ∷ 0 ∷ 0 ∷ 0 ∷ []

abbrev pub mpeg_samplerates : List (List ℕ)
mpeg_samplerates =
    (11025 ∷ 0 ∷ 22050 ∷ 44100 ∷ [])
    ∷ (12000 ∷ 0 ∷ 24000 ∷ 48000 ∷ [])
    ∷ (8000 ∷ 0 ∷ 16000 ∷ 32000 ∷ [])
    ∷ (0 ∷ 0 ∷ 0 ∷ 0 ∷ [])
    ∷ []

-- `get_mpegframe_layer`: 1 is layer III, 2 layer II, 3 layer I, 0 AAC.
abbrev pub frame_layer : ℕ → ℕ
frame_layer b1 = b1 / 2 % 4

-- `get_mpegframe_version`: 3 is MPEG 1, 2 MPEG 2, 0 MPEG 2.5.
abbrev pub frame_version : ℕ → ℕ
frame_version b1 = b1 / 8 % 4

-- `get_aac_frame_len`
abbrev pub aac_frame_len : ℕ → ℕ → ℕ → ℕ
aac_frame_len b3 b4 b5 = b3 % 4 * 2048 + b4 * 8 + b5 / 32 % 8

-- The entry of `mpeg_samplerates` for an index and a version.
abbrev pub samplerate_at : ℕ → ℕ → ℕ
samplerate_at index version = get_or (get_or mpeg_samplerates index []) version 0

-- `get_mpegframe_samplerate`
abbrev pub frame_samplerate : ℕ → ℕ → ℕ
frame_samplerate b1 b2 = samplerate_at (b2 / 4 % 4) (frame_version b1)

-- The rows of `bitrates` for MPEG 1, by layer; the last entry, -1, is left out.
abbrev pub bitrates_v1 : List (List ℕ)
bitrates_v1 =
    (0 ∷ 32 ∷ 40 ∷ 48 ∷ 56 ∷ 64 ∷ 80 ∷ 96 ∷ 112 ∷ 128 ∷ 160 ∷ 192 ∷ 224 ∷ 256 ∷ 320 ∷ [])
    ∷ (0 ∷ 32 ∷ 48 ∷ 56 ∷ 64 ∷ 80 ∷ 96 ∷ 112 ∷ 128 ∷ 160 ∷ 192 ∷ 224 ∷ 256 ∷ 320 ∷ 348 ∷ [])
    ∷ (0 ∷ 32 ∷ 54 ∷ 96 ∷ 128 ∷ 160 ∷ 192 ∷ 224 ∷ 256 ∷ 288 ∷ 320 ∷ 352 ∷ 384 ∷ 416 ∷ 448 ∷ [])
    ∷ []

-- The rows for MPEG 2 and 2.5: of layers III and II (and AAC), and of layer I.
abbrev pub bitrates_v2 : List (List ℕ)
bitrates_v2 =
    (0 ∷ 8 ∷ 16 ∷ 24 ∷ 32 ∷ 40 ∷ 48 ∷ 56 ∷ 64 ∷ 80 ∷ 96 ∷ 112 ∷ 128 ∷ 144 ∷ 160 ∷ [])
    ∷ (0 ∷ 32 ∷ 48 ∷ 56 ∷ 64 ∷ 80 ∷ 96 ∷ 112 ∷ 128 ∷ 144 ∷ 160 ∷ 176 ∷ 192 ∷ 224 ∷ 256 ∷ [])
    ∷ []

-- `get_mpeg_bitrate` for a version, a layer and a code; `none` is -1.
unfoldable pub bitrate_at : ℕ → ℕ → ℕ → Option ℕ
bitrate_at version layer code =
    if version == 3
    then (if layer == 0 then none else get_elem? (get_or bitrates_v1 (layer - 1) []) code)
    else get_elem? (get_or bitrates_v2 (if layer == 3 then 1 else 0) []) code

-- `get_samples_per_mpegframe`; `none` is -1.
unfoldable pub samples_per_frame : ℕ → ℕ → Option ℕ
samples_per_frame version layer =
    if (version == 1) || (layer == 0)
    then none
    else if version == 3
    then (if layer == 3 then some 576 else some 1152)
    else if layer == 1
    then some 576
    else if layer == 2
    then some 1152
    else some 384

-- The length that `get_mpeg_frame_length` computes from what the header says, in bytes; 0 where
-- the bitrate or the samples are not known.
unfoldable pub length_at : ℕ → Option ℕ → Option ℕ → ℕ → ℕ → ℕ
length_at layer (some bitrate) (some samples) samplerate padding =
    if bitrate == 0
    then 0
    else if layer == 3
    then (12 * (bitrate * 1000) / samplerate + padding) * 4
    else samples / 8 * (bitrate * 1000) / samplerate + padding
length_at layer _ _ samplerate padding = 0

-- A count of samples in a `uint32_t`.
abbrev pub sample_word : Option ℕ → ℕ
sample_word none = 2 ^ 32 - 1
sample_word (some n) = n

abbrev pub is_mpeg : Format → Bool
is_mpeg mpeg = true
is_mpeg _ = false

-- The bitrate that a frame announces while the format is still sought.
abbrev pub noted_bitrate : Sync → Option ℕ → Option ℕ → ℕ
noted_bitrate mp (some bitrate) (some samples) =
    if (bitrate == 0) || is_mpeg mp.format then mp.bitrate else bitrate
noted_bitrate mp _ _ = mp.bitrate

-- `get_mpeg_frame_length`: the length and the new state; `none` is -1, which leaves the state.
unfoldable pub mpeg_frame_length : Sync → ℕ → ℕ → Option ℕ × Sync
unfolding bitrate_at samples_per_frame length_at
mpeg_frame_length mp b1 b2 =
    let rate = frame_samplerate b1 b2 in
    let layer = frame_layer b1 in
    let bitrate = bitrate_at (frame_version b1) layer (b2 / 16) in
    let samples = samples_per_frame (frame_version b1) layer in
    if (rate == 0) || (not (mp.mask == 0) && not (mp.samplerate == rate)) then (none, mp) else (
      some (length_at layer bitrate samples rate (b2 / 2 % 2)),
      record mp { sample_count = sample_word samples; bitrate = noted_bitrate mp bitrate samples },
    )
