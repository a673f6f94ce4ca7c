-- ===== src/Mpeg/Handle.antt =====
-- src/mpeg.c, lines 167 to 197, 278 to 326, 482 to 495 and 558 to 582: what is done with a frame
-- once the format is known. `p` holds the bytes that remain in the block, at least ten of them:
-- `mpeg_complete_frames_cb` asks for that before. The callback of the client is an argument: it
-- answers whether it returns a negative number, and leaves the parser.
pub mod Bounds
pub mod Ready
mod Tests
use mcaster1dnas.Base.{
  ℕ, Bool, Bytes, Option, false, get_or, if◌then◌else◌, length, ltb, none, not, some, suc, take,
  true, zero, ◌%◌, ◌&&◌, ◌*◌, ◌+◌, ◌/◌, ◌==◌,
}
use mcaster1dnas.Mpeg.Header.{aac_frame_len, aacp_sample_freq, frame_samplerate, mpeg_frame_length}
use mcaster1dnas.Mpeg.Sync.{Sync, aac_frame, id3_frame, mpeg_frame, ts_frame, unset, usac_frame}

-- The result of a handler: -1, 0 for more data needed, or the length of the frame.
pub data Verdict : Type 0 where
  reject more : Verdict
  frame : ℕ → Verdict

abbrev pub Callback : Type 0
Callback = Option (Bytes → ℕ → ℕ → Bool)

abbrev pub refused : Callback → Bytes → ℕ → ℕ → Bool
refused none p frame_len header_len = false
refused (some cb) p frame_len header_len = cb p frame_len header_len

abbrev pub byte : Bytes → ℕ → ℕ
byte p i = get_or p i 0

-- A length as a result.
abbrev pub frame_of : ℕ → Verdict
frame_of n = if n == 0 then more else frame n

-- `syncframe_set_samplerate`, for rates below 2 ^ 20.
abbrev pub set_samplerate : Sync → ℕ → Sync
set_samplerate mp rate = record mp { samplerate = rate }

abbrev pub no_samples : Sync → Sync
no_samples mp = record mp { sample_count = 0 }

-- `handle_aac_frame`; a change of the sample rate sets the rate that it was.
pub handle_aac_frame : Callback → Sync → Bytes → Verdict × Sync
handle_aac_frame cb mp p =
    let frame_len = aac_frame_len (byte p 3) (byte p 4) (byte p 5) in
    let rate = get_or aacp_sample_freq (byte p 2 / 4 % 16) 0 in
    let cur_rate = mp.samplerate in
    let noted : Sync = if rate == cur_rate then mp else set_samplerate mp cur_rate in
    let counted : Sync = record noted { sample_count = (byte p 6 % 4 + 1) * 1024 } in
    if ltb (length p) frame_len
    then (more, mp)
    else if refused cb p frame_len (if byte p 1 % 2 == 1 then 7 else 9)
    then (reject, no_samples counted)
    else (frame_of frame_len, counted)

-- The end of `handle_mpeg_frame`, for a length that is not negative.
pub take_mpeg : Callback → Sync → Bytes → ℕ → Verdict × Sync
take_mpeg cb mp p frame_len =
    if frame_len == 0
    then (reject, no_samples mp)
    else if ltb (length p) frame_len
    then (more, mp)
    else if refused cb p frame_len (if byte p 1 % 2 == 1 then 4 else 6)
    then (reject, no_samples mp)
    else (frame frame_len, mp)

-- `handle_mpeg_frame` after the length is computed; `again` is its call of itself.
pub after_length :
    (Sync → Option (Verdict × Sync)) → Callback → Bytes → Option ℕ × Sync → Option (Verdict × Sync)
unfolding take_mpeg
after_length again cb p (some n, mp) = some (take_mpeg cb mp p n)
after_length again cb p (none, mp) =
    let rate = frame_samplerate (byte p 1) (byte p 2) in
    if rate == 0 then some (reject, no_samples mp) else again (set_samplerate mp rate)

-- `handle_mpeg_frame`, which calls itself after a change of the sample rate; `none` is out of fuel.
pub handle_mpeg : ℕ → Callback → Sync → Bytes → Option (Verdict × Sync)
unfolding after_length
handle_mpeg zero cb mp p = none
handle_mpeg (suc fuel) cb mp p =
    after_length (λ m. handle_mpeg fuel cb m p) cb p (mpeg_frame_length mp (byte p 1) (byte p 2))

-- `handle_ts_frame`, for a length that fits an int.
pub handle_ts_frame : Sync → Bytes → Verdict × Sync
handle_ts_frame mp p =
    let frame_len = mp.sample_count in
    if ltb (length p) frame_len
    then (more, mp)
    else if ltb frame_len (length p) && not (byte p frame_len == 0x47)
    then (reject, no_samples mp)
    else (frame_of frame_len, mp)

-- `handle_usac_frame`
pub handle_usac_frame : Sync → Bytes → Verdict × Sync
handle_usac_frame mp p =
    let frame_len = 3 + (byte p 1 % 32 * 256 + byte p 2) in
    if ltb (length p) frame_len
    then (more, mp)
    else if ltb frame_len (length p) && not (byte p frame_len == 0x56)
    then (reject, no_samples mp)
    else (frame_of frame_len, mp)

-- `handle_id3_frame`, for a length that fits an int.
pub handle_id3_frame : Sync → Bytes → Verdict × Sync
handle_id3_frame mp p =
    let frame_len = mp.sample_count in
    let copied : Sync =
      if mp.copy_meta then record mp { tag_data = take frame_len p; changed = true } else mp in
    if ltb (length p) frame_len
    then (more, mp)
    else if mp.keep_meta
    then (frame_of frame_len, record copied { mask = 0 })
    else (reject, copied)

-- A handler that takes the count of samples for its length, an int: one that does not fit is
-- negative, and `none` is the access before the block that it then makes.
abbrev pub with_length : Sync → Verdict × Sync → Option (Verdict × Sync)
with_length mp r = if ltb mp.sample_count 2147483648 then some r else none

-- `mp->process_frame`; `none` is the call of a NULL pointer, or an access before the block.
pub process_frame : Callback → Sync → Bytes → Option (Verdict × Sync)
unfolding handle_aac_frame handle_mpeg handle_ts_frame handle_usac_frame handle_id3_frame
process_frame cb mp p = elim mp.process [
  | unset ↦ none
  | aac_frame ↦ some (handle_aac_frame cb mp p)
  | mpeg_frame ↦ handle_mpeg 2 cb mp p
  | ts_frame ↦ with_length mp (handle_ts_frame mp p)
  | usac_frame ↦ some (handle_usac_frame mp p)
  | id3_frame ↦ with_length mp (handle_id3_frame mp p)
]
