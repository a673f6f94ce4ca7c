-- ===== src/Mpeg/Initial.antt =====
-- src/mpeg.c, lines 583 to 763: tags in a stream, and the first frame of a stream. `p` holds what is
-- left of the block and `remaining` is the number of bytes that the caller says are left. A check
-- returns the block as well, since it wipes a tag that is not kept.
pub mod Ready
pub mod Stays
mod Tests
use Prim.Native.Nat.{bit_and, bit_or}
use mcaster1dnas.Base.{
  ℕ, Bool, Bytes, Option, [], codes, drop, false, if◌then◌else◌, leb, length, ltb, none, replicate,
  some, true, ◌%◌, ◌&&◌, ◌*◌, ◌++◌, ◌+◌, ◌/◌, ◌==◌, ◌^◌, ◌||◌, ◌∷◌,
}
use mcaster1dnas.Mpeg.Sync.{Sync, ebml, id3_frame, ogg, undefined}
use mcaster1dnas.Mpeg.Header.{frame_layer}
use mcaster1dnas.Mpeg.Handle.{byte}
use mcaster1dnas.Mpeg.Detect.Answers.{Answer, absent, detected, overrun, wait}
use mcaster1dnas.Mpeg.Detect.{check_for_ts, check_for_usac}
use mcaster1dnas.Mpeg.Detect.Mp3.{check_for_mp3}
use mcaster1dnas.Mpeg.Detect.Aac.{check_for_aac}

-- `memcmp` of the start of a block with a text.
abbrev pub starts : Bytes → Bytes → Bool
starts [] p = true
starts (a ∷ s) [] = false
starts (a ∷ s) (b ∷ p) = (a == b) && starts s p

abbrev pub little32 : ℕ → ℕ → ℕ → ℕ → ℕ
little32 a b c d = (a + b * 256 + c * 65536 + d * 16777216) % 2 ^ 32

-- The length that an APE tag announces, with its header, in 32 bits.
abbrev pub ape_len : Bytes → ℕ
ape_len p = (little32 (byte p 12) (byte p 13) (byte p 14) (byte p 15) + 32) % 2 ^ 32

-- The size that an ID3v2 tag announces, seven bits of each byte.
abbrev pub id3_size : Bytes → ℕ
id3_size p = ((byte p 6 % 128 * 128 + byte p 7 % 128) * 128 + byte p 8 % 128) * 128 + byte p 9 % 128

-- The handler of tags, and the byte that leads to it.
abbrev pub tag_handler : Sync → ℕ → Sync
tag_handler mp marker = record mp { process = id3_frame; mask = 0xFF000000; marker = marker }

-- `memset (p, 0, len)`
pub wiped : Sync → Bytes → ℕ → Answer × Sync × Bytes
wiped mp p len =
    if ltb (length p) len then (overrun, mp, p) else (detected, mp, replicate len 0 ++ drop len p)

-- Without a handler yet, that of tags.
abbrev pub first_handler : Sync → ℕ → Sync
first_handler mp marker = if mp.mask == 0 then tag_handler mp marker else mp

pub ape_tag : Sync → Bytes → ℕ → Answer × Sync × Bytes
unfolding wiped
ape_tag mp p remaining =
    if ltb remaining (ape_len p)
    then (wait, mp, p)
    else if mp.keep_meta
    then (detected, record (first_handler mp 0x41) { sample_count = ape_len p }, p)
    else wiped mp p (ape_len p)

pub id3v1_tag : Sync → Bytes → ℕ → Answer × Sync × Bytes
unfolding wiped
id3v1_tag mp p remaining =
    if ltb remaining 128
    then (wait, mp, p)
    else if mp.keep_meta
    then (detected, record (tag_handler mp 0x54) { sample_count = 128 }, p)
    else wiped mp p 128

pub id3v2_tag : Sync → Bytes → ℕ → Answer × Sync × Bytes
id3v2_tag mp p remaining =
    let sized : Sync = record mp { sample_count = id3_size p + 10 } in
    if ltb remaining (id3_size p)
    then (detected, record sized { resize = true }, p)
    else (detected, first_handler sized 0x49, p)

-- `check_for_id3`; it reads no more than the first sixteen bytes.
pub check_for_id3 : Sync → Bytes → ℕ → Answer × Sync × Bytes
unfolding ape_tag id3v1_tag id3v2_tag
check_for_id3 mp p remaining =
    if ltb remaining 16
    then (wait, mp, p)
    else if ltb (length p) 16
    then (overrun, mp, p)
    else if starts (codes "APETAGEX") p
    then ape_tag mp p remaining
    else if starts (codes "TAG") p
    then id3v1_tag mp p remaining
    else if starts (codes "ID3") p
        && ltb (byte p 3) 0xFF
        && ltb (byte p 4) 0xFF
        && (byte p 5 % 16 == 0)
    then id3v2_tag mp p remaining
    else (absent, mp, p)

-- `make_val32`, for four bytes of a block.
abbrev pub make_val32 : Bytes → ℕ
make_val32 p = ((byte p 0 * 256 + byte p 1) * 256 + byte p 2) * 256 + byte p 3

-- The options that `get_initial_frame` keeps.
abbrev pub reset : Sync → Sync
reset mp = record mp {
  changed = false;
  skip_sync = false;
  resize = false;
  chk_tag = false;
  bitrate = 0;
  channels = 0;
  samplerate = 0;
  layer = 0;
  version = 0;
  format = undefined;
}

abbrev pub is_absent : Answer → Bool
is_absent absent = true
is_absent _ = false

-- `if (ret < 0 && test) ret = check (...)`
unfoldable pub or_else : Bool → (Sync → Answer × Sync) → Answer × Sync → Answer × Sync
or_else test check (a, mp) = if is_absent a && test then check mp else (a, mp)

abbrev pub with_layer : Sync → Bytes → Sync
with_layer mp p = record mp { layer = bit_or mp.layer (frame_layer (byte p 1)) }

-- The end of `get_initial_frame`: what later frames are to match.
unfoldable pub noted : Bytes → Answer × Sync → Answer × Sync
noted p (detected, mp) =
    (detected, record mp { resync_count = 0; match_bits = bit_and (make_val32 p) mp.mask })
noted p (other, mp) = (other, mp)

-- The result of `get_initial_frame`: 2, for a stream that is not parsed, or that of a check.
pub data Initial : Type 0 where
  avoid : Initial
  found : Answer → Initial

module _ (estimate : ℕ → ℕ → ℕ → ℕ → ℕ) where
  -- The check for AAC, and for MPEG audio where there is none.
  pub audio : Bytes → Sync → Answer × Sync
  unfolding or_else
  audio p mp =
      or_else true (λ mp'. check_for_mp3 mp' p) (check_for_aac estimate (with_layer mp p) p)

  -- The checks of `get_initial_frame` for a format, after that for tags.
  unfoldable pub formats : Bytes → Answer × Sync → Answer × Sync
  unfolding audio
  formats p r =
      or_else ((byte p 0 == 0x56) && (byte p 1 / 32 == 7)) (λ mp. check_for_usac mp p)
        (or_else (leb 0xE0 (byte p 1)) (audio p)
          (or_else (byte p 0 == 0x47) (λ mp. check_for_ts mp p) r))

  -- The part of `get_initial_frame` that follows the check for tags.
  unfoldable pub after_tags : Answer × Sync × Bytes → Initial × Sync × Bytes
  unfolding formats noted
  after_tags (a, mp, p) =
      if starts (0x1A ∷ 0x45 ∷ 0xDF ∷ 0xA3 ∷ []) p
      then (found detected, record mp { skip_sync = true; format = ebml }, p)
      else if starts (codes "OggS") p
      then (found absent, record mp { skip_sync = true; format = ogg }, p)
      else let r = noted p (formats p (a, mp)) in (found r.0, r.1, p)

  -- `get_initial_frame`, for a block of at least ten bytes.
  unfoldable pub get_initial_frame : Sync → Bytes → Initial × Sync × Bytes
  unfolding check_for_id3 after_tags
  get_initial_frame mp p =
      let first = byte p 0 in
      if mp.skip_sync
      then (avoid, mp, p)
      else after_tags (
          if (first == b'I') || (first == b'T') || (first == b'A')
          then check_for_id3 (reset mp) p (length p)
          else (absent, reset mp, p))

-- `match_syncbits`: whether it returns 0, where it reads within the block.
pub match_syncbits : Sync → Bytes → ℕ → Option Bool × Sync × Bytes
unfolding check_for_id3
match_syncbits mp p remaining =
    if bit_and (make_val32 p) mp.mask == mp.match_bits
    then (some true, mp, p)
    else let r = check_for_id3 mp p remaining in
      elim r.0 [
        | absent ↦ (some false, r.1, r.2)
        | overrun ↦ (none, r.1, r.2)
        | _ ↦ (some true, record (r.1) { chk_tag = true }, r.2)
      ]
