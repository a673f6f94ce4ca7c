-- ===== src/Mpeg/Detect.antt =====
-- src/mpeg.c, lines 328 to 479 and 498 to 556: how the format of a stream is found. `p` holds the
-- bytes that remain in the block. A pointer into the block is an offset from `p`, or the bytes
-- from there on. A count that is not positive is 0.
pub mod Answers
pub mod Msb
pub mod Ts
pub mod Usac
pub mod Ready
pub mod Mp3
pub mod Aac
mod Tests
use mcaster1dnas.Base.{
  ℕ, Bytes, List, [], get_elem?, if◌then◌else◌, length, ltb, none, some, suc, true, zero, ◌%◌, ◌&&◌,
  ◌*◌, ◌+◌, ◌/◌, ◌==◌, ◌^◌, ◌∷◌,
}
use mcaster1dnas.Mpeg.Detect.Answers.{Answer, and_read, absent, overrun, wait, detected}
use mcaster1dnas.Mpeg.Sync.{Sync, ts_frame, usac, usac_frame}

-- The loop of `getMSB4`: the leading bits, and how many were dropped.
pub msb_loop : ℕ → ℕ → ℕ → ℕ × ℕ
msb_loop zero m c = (m, c)
msb_loop (suc fuel) m c =
    let rest = msb_loop fuel (m / 2) (c + 1) in if ltb 15 m then rest else (m, c)

-- The bit patterns that `getMSB4` rounds up.
abbrev pub adjusted : ℕ → ℕ
adjusted m = if m == 0xF then 0x10 else if m == 0xB then 0xC else m

-- `getMSB4`; an `unsigned long` has 64 bits, which bound the shifts.
pub get_msb4 : ℕ → ℕ
unfolding msb_loop
get_msb4 v = let (m, c) = msb_loop 64 v 0 in adjusted m * 2 ^ c % 2 ^ 64

-- What one pass of `check_for_ts` for a packet length finds.
pub data Pass : Type 0 where
  off short miss hit : Pass

-- The pass, for `checking` packets from `offset` on.
unfoldable pub ts_packets : ℕ → ℕ → ℕ → Bytes → Pass
ts_packets zero offset pkt_len p = hit
ts_packets (suc checking) offset pkt_len p =
    let rest = ts_packets checking (offset + pkt_len) pkt_len p in
    if ltb (length p) offset
    then short
    else elim (get_elem? p offset) [ none ↦ off | some b ↦ if b == 0x47 then rest else miss ]

abbrev pub found_ts : Sync → ℕ → Sync
found_ts mp pkt_len = record mp {
  process = ts_frame;
  mask = 0xFF000000;
  marker = 0x47;
  sample_count = pkt_len;
  skip_sync = true;
  changed = true;
}

-- The passes of `check_for_ts`, for the packet lengths that it tries in turn.
unfoldable pub ts_lengths : List ℕ → Sync → Bytes → Answer × Sync
unfolding ts_packets
ts_lengths [] mp p = (absent, mp)
ts_lengths (pkt_len ∷ more) mp p =
    let rest = ts_lengths more mp p in
    elim (ts_packets 4 0 pkt_len p) [
      | off ↦ (overrun, mp)
      | short ↦ (wait, mp)
      | miss ↦ rest
      | hit ↦ (detected, found_ts mp pkt_len)
    ]

-- `check_for_ts`
unfoldable pub check_for_ts : Sync → Bytes → Answer × Sync
unfolding ts_lengths
check_for_ts mp p = ts_lengths (188 ∷ 204 ∷ 208 ∷ []) mp p

-- The loop of `check_for_usac`, for `checking` frames from `offset` on.
pub usac_frames : ℕ → ℕ → Bytes → Answer
usac_frames zero offset p = detected
usac_frames (suc checking) offset p =
    if ltb (length p) (offset + 2)
    then wait
    else and_read p offset (λ b0. and_read p (offset + 1) (λ b1.
      if (b0 == 0x56) && (b1 / 32 == 7)
      then and_read p (offset + 2)
          (λ b2. usac_frames checking (offset + (b1 % 32 * 256 + b2 + 3)) p)
      else absent))

-- What the end of `check_for_usac` makes of the loop's answer.
pub usac_answer : Sync → Answer → Answer × Sync
usac_answer mp detected = (
  detected,
  record mp {
    process = usac_frame;
    format = usac;
    mask = 0xFFE00000;
    marker = 0x56;
    changed = true;
  },
)
usac_answer mp other = (other, mp)

-- `check_for_usac`
pub check_for_usac : Sync → Bytes → Answer × Sync
unfolding usac_frames usac_answer
check_for_usac mp p = usac_answer mp (usac_frames mp.chkframes 0 p)
