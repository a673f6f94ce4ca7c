-- ===== src/Mpeg/Detect/Ts.antt =====
-- When `check_for_ts` finds an MPEG transport stream, and when it reads outside the block.
use mcaster1dnas.Mpeg.Detect.Answers.{Answer, overrun, wait, detected}
use mcaster1dnas.Mpeg.Sync.{Sync}
use mcaster1dnas.Base.{
  ℕ, Bytes, arith, get_elem?, length, some, suc, zero, ◌*◌, ◌+◌, ◌<◌, ◌≡◌, List, [], ap,
  get_elem?-none, inl, inr, sym, ◌∙◌, ◌∷◌, ◌⊎◌, All, refl,
}
use mcaster1dnas.Mpeg.Detect.{hit, off, ts_packets, found_ts, ts_lengths, miss, short, check_for_ts}

-- Four markers, a packet length apart.
pub IsMarked : Bytes → ℕ → Type 0
IsMarked p pkt_len = (j : ℕ) → j < 4 → get_elem? p (j * pkt_len) ≡ some 0x47

next_offset : (offset j pkt_len : ℕ) → offset + pkt_len + j * pkt_len ≡ offset + suc j * pkt_len
next_offset offset j pkt_len = grind arith

hit_step :
    (k offset pkt_len : ℕ) (p : Bytes)
    → ts_packets (suc k) offset pkt_len p ≡ hit
    → (get_elem? p offset ≡ some 0x47) × (ts_packets k (offset + pkt_len) pkt_len p ≡ hit)
unfolding ts_packets
hit_step k offset pkt_len p h = ground arith

off_step :
    (k offset pkt_len : ℕ) (p : Bytes)
    → ts_packets (suc k) offset pkt_len p ≡ off
    → (length p ≡ offset) ⊎ (ts_packets k (offset + pkt_len) pkt_len p ≡ off)
unfolding ts_packets
off_step k offset pkt_len p h = ground (arith, get_elem?-none p offset)

hit→marked :
    (k offset pkt_len : ℕ) (p : Bytes)
    → ts_packets k offset pkt_len p ≡ hit
    → (j : ℕ) → j < k
    → get_elem? p (offset + j * pkt_len) ≡ some 0x47
hit→marked zero offset pkt_len p h j lt = absurd (omega arith)
hit→marked (suc k) offset pkt_len p h zero lt =
    ap (get_elem? p) (omega arith) ∙ (hit_step k offset pkt_len p h).0
hit→marked (suc k) offset pkt_len p h (suc j) lt =
    ap (get_elem? p) (sym (next_offset offset j pkt_len))
    ∙ hit→marked k (offset + pkt_len) pkt_len p (hit_step k offset pkt_len p h).1 j (omega arith)

off→end :
    (k offset pkt_len : ℕ) (p : Bytes)
    → ts_packets k offset pkt_len p ≡ off
    → (j : ℕ) × (j < k) × (length p ≡ offset + j * pkt_len)
unfolding ts_packets
off→end zero offset pkt_len p h = absurd (ground arith)
off→end (suc k) offset pkt_len p h = elim (off_step k offset pkt_len p h) [
  | inl e ↦ (0, omega arith, omega arith)
  | inr e ↦
      let (j, lt, q) = off→end k (offset + pkt_len) pkt_len p e in
      (suc j, omega arith, q ∙ next_offset offset j pkt_len)
]

pub IsPacketLength : ℕ → Type 0
IsPacketLength n = (n ≡ 188) ⊎ (n ≡ 204) ⊎ (n ≡ 208)

pub IsFound : Sync → Bytes → Answer × Sync → Type 0
IsFound mp p r = (n : ℕ) × IsPacketLength n × IsMarked p n × (r ≡ (detected, found_ts mp n))

pub IsPastEnd : Bytes → Type 0
IsPastEnd p = (n : ℕ) × (j : ℕ) × IsPacketLength n × (j < 4) × (length p ≡ j * n)

-- What an answer says.
abbrev Explained : Sync → Bytes → Answer × Sync → Type 0
Explained mp p r = (r.0 ≡ detected → IsFound mp p r) × (r.0 ≡ overrun → IsPastEnd p)

Explained-pass :
    (n : ℕ) (mp : Sync) (p : Bytes) (r : Answer × Sync)
    → IsPacketLength n
    → Explained mp p r
    → Explained mp p (elim (ts_packets 4 0 n p) [
      | off ↦ (overrun, mp)
      | short ↦ (wait, mp)
      | miss ↦ r
      | hit ↦ (detected, found_ts mp n)
    ])
unfolding IsFound IsPastEnd IsMarked
Explained-pass n mp p r q h =
    elim (ts_packets 4 0 n p)
        as (λ x.
          ts_packets 4 0 n p ≡ x
          → Explained mp p (elim x [
            | off ↦ (overrun, mp)
            | short ↦ (wait, mp)
            | miss ↦ r
            | hit ↦ (detected, found_ts mp n)
          ])) [
            | off ↦ λ e. (
              λ k. absurd (ground arith),
              λ k. let (j, lt, l) = off→end 4 0 n p e in (n, j, q, lt, omega (arith, l)),
            )
            | short ↦ λ e. (λ k. absurd (ground arith), λ k. absurd (ground arith))
            | miss ↦ λ e. h
            | hit ↦ λ e. (
              λ k. (n, q, λ j lt. ap (get_elem? p) (omega arith) ∙ hit→marked 4 0 n p e j lt, refl),
              λ k. absurd (ground arith),
            )
          ]
      refl

lengths-Explained :
    (l : List ℕ) (mp : Sync) (p : Bytes) → All IsPacketLength l → Explained mp p (ts_lengths l mp p)
unfolding ts_lengths
lengths-Explained [] mp p h = (λ e. absurd (ground arith), λ e. absurd (ground arith))
lengths-Explained (n ∷ l) mp p h = Explained-pass n mp p _ h.0 (lengths-Explained l mp p h.1)

explained : (mp : Sync) (p : Bytes) → Explained mp p (check_for_ts mp p)
unfolding check_for_ts IsPacketLength
explained mp p =
    lengths-Explained (188 ∷ 204 ∷ 208 ∷ []) mp p (inl refl, (inr (inl refl), (inr (inr refl), tt)))

-- Where `check_for_ts` finds a transport stream, a marker stands at the start of four packets of
-- 188, 204 or 208 bytes, and that length is noted.
pub check_for_ts-IsFound :
    (mp : Sync) (p : Bytes) → (check_for_ts mp p).0 ≡ detected → IsFound mp p (check_for_ts mp p)
check_for_ts-IsFound mp p h = (explained mp p).0 h

-- `check_for_ts` reads outside the block only where the block ends exactly where one of the four
-- packets would begin, for one of the three lengths.
pub check_for_ts-IsPastEnd : (mp : Sync) (p : Bytes) → (check_for_ts mp p).0 ≡ overrun → IsPastEnd p
check_for_ts-IsPastEnd mp p h = (explained mp p).1 h
