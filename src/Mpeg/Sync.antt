-- ===== src/Mpeg/Sync.antt =====
-- src/mpeg.h, lines 30 to 53, and src/mpeg.c, lines 45 to 160: the state of a parser. The bits of
-- `settings` are fields; a value too large for its own bits spills into the next ones, as written.

use Prim.Native.Nat.{bit_or}
use mcaster1dnas.Base.{
  ℕ, Bool, Bytes, Option, [], arith, false, if◌then◌else◌, ltb, none, true, ◌%◌, ◌&&◌, ◌||◌, ◌*◌,
  ◌/◌, ◌<◌, ◌==◌, ◌≡◌, ◌≤◌, ◌≢◌, ◌⊎◌, if-cases,
}

-- `mp->type`
pub data Format : Type 0 where
  undefined mpeg aac usac ogg ebml mp4 : Format

-- `mp->process_frame`
pub data Process : Type 0 where
  unset mpeg_frame aac_frame ts_frame usac_frame id3_frame : Process

-- `mpeg_sync`. `bitrate`, `channels`, `samplerate` and `chkframes` are fields of 16, 8, 20 and 4
-- bits of `settings`, `layer` and `version` of two bits each; the flags are its low bits.
pub record Sync : Type 0 where
  pub log_messages : Bool
  pub changed : Bool
  pub skip_sync : Bool
  pub keep_meta : Bool
  pub copy_meta : Bool
  pub resize : Bool
  pub chk_tag : Bool
  pub bitrate : ℕ
  pub channels : ℕ
  pub samplerate : ℕ
  pub chkframes : ℕ
  pub layer : ℕ
  pub version : ℕ
  pub mask : ℕ
  pub match_bits : ℕ
  pub resync_count : ℕ
  pub sample_count : ℕ
  pub marker : ℕ
  pub format : Format
  pub process : Process
  pub tag_data : Bytes
  pub surplus : Option Bytes

-- `syncframe_set_framecheck`, for counts below 256: the bits above the lowest four join those of
-- the layer and the version.
unfoldable pub set_framecheck : Sync → ℕ → Sync
set_framecheck mp v = record mp {
  chkframes = v % 16;
  layer = bit_or mp.layer (v / 16 % 4);
  version = bit_or mp.version (v / 64 % 4);
}

-- `mpeg_setup`
unfoldable pub setup : Sync
unfolding set_framecheck
setup = record cleared { log_messages = true; chkframes = 4 }
  where
    cleared : Sync
    cleared = record {
      log_messages = false;
      changed = false;
      skip_sync = false;
      keep_meta = false;
      copy_meta = false;
      resize = false;
      chk_tag = false;
      bitrate = 0;
      channels = 0;
      samplerate = 0;
      chkframes = 0;
      layer = 0;
      version = 0;
      mask = 0;
      match_bits = 0;
      resync_count = 0;
      sample_count = 0;
      marker = 0;
      format = undefined;
      process = unset;
      tag_data = [];
      surplus = none;
    }

-- `mpeg_check_numframes`
unfoldable pub check_numframes : Sync → ℕ → Sync
unfolding set_framecheck
check_numframes mp count =
    let counted : Sync = if ltb 0 count && ltb count 100 then set_framecheck mp count else mp in
    if count == 1 then record counted { log_messages = false } else counted

-- `mpeg_has_changed`
unfoldable pub has_changed : Sync → Bool × Sync
has_changed mp = (mp.changed, record mp { changed = false })

-- The argument of `mpeg_set_flags`, by the bits of `settings`.
pub record Flags : Type 0 where
  pub log_messages : Bool
  pub changed : Bool
  pub skip_sync : Bool
  pub keep_meta : Bool
  pub copy_meta : Bool
  pub resize : Bool
  pub chk_tag : Bool
  pub bitrate : ℕ
  pub channels : ℕ
  pub samplerate : ℕ
  pub chkframes : ℕ
  pub layer : ℕ
  pub version : ℕ

-- `mpeg_set_flags`: bits are set, and none is cleared.
unfoldable pub set_flags : Sync → Flags → Sync
set_flags mp f = record mp {
  log_messages = mp.log_messages || f.log_messages;
  changed = mp.changed || f.changed;
  skip_sync = mp.skip_sync || f.skip_sync;
  keep_meta = mp.keep_meta || f.keep_meta;
  copy_meta = mp.copy_meta || f.copy_meta;
  resize = mp.resize || f.resize;
  chk_tag = mp.chk_tag || f.chk_tag;
  bitrate = bit_or mp.bitrate f.bitrate;
  channels = bit_or mp.channels f.channels;
  samplerate = bit_or mp.samplerate f.samplerate;
  chkframes = bit_or mp.chkframes f.chkframes;
  layer = bit_or mp.layer f.layer;
  version = bit_or mp.version f.version;
}

-- `mpeg_get_bitrate`
unfoldable pub get_bitrate : Sync → ℕ
get_bitrate mp = mp.bitrate * 1000

-- `mpeg_complete_frames_cb` calls `mp->process_frame` only where `mp->mask` is not 0.
pub record IsReady (mp : Sync) : Type 0 where
  pub handler : (mp.mask ≡ 0) ⊎ (mp.process ≢ unset)

pub check_numframes-IsReady :
    (mp : Sync) (count : ℕ) → IsReady mp → IsReady (check_numframes mp count)
unfolding check_numframes set_framecheck
check_numframes-IsReady mp count h =
    let set : IsReady (if ltb 0 count && ltb count 100 then set_framecheck mp count else mp) =
      if-cases IsReady (ltb 0 count && ltb count 100) (set_framecheck mp count) mp
        (λ _. record { handler = h.handler }) (λ _. h) in
    if-cases IsReady (count == 1) _ _ (λ _. record { handler = set.handler })
      (λ _. record { handler = set.handler })

-- A number of frames that does not fit four bits is not the number that is checked: from 16 on
-- `mpeg_check_numframes` keeps the remainder, and changes the layer.
pub check_numframes_spills :
    (mp : Sync) (count : ℕ)
    → 16 ≤ count
    → count < 100
    → ((check_numframes mp count).chkframes ≡ count % 16)
      × ((check_numframes mp count).chkframes < count)
      × ((check_numframes mp count).layer ≡ bit_or mp.layer (count / 16 % 4))
unfolding check_numframes
check_numframes_spills mp count h k = (ground arith, ground arith, ground arith)
