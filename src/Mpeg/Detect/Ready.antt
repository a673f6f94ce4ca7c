-- ===== src/Mpeg/Detect/Ready.antt =====
-- The checks for MPEG-TS and USAC set a handler together with the bits to match.
use mcaster1dnas.Mpeg.Detect.Answers.{Answer, detected, absent, wait, overrun, stuck}
use mcaster1dnas.Base.{ℕ, Bytes, List, [], arith, inr, ◌∷◌}
use mcaster1dnas.Mpeg.Sync.{IsReady, Sync}
use mcaster1dnas.Mpeg.Detect.{
  check_for_ts, check_for_usac, found_ts, hit, miss, off, short, ts_lengths, ts_packets,
  usac_answer,
}

ts_lengths-IsReady :
    (l : List ℕ) (mp : Sync) (p : Bytes) → IsReady mp → IsReady (ts_lengths l mp p).1
unfolding ts_lengths
ts_lengths-IsReady [] mp p h = h
ts_lengths-IsReady (n ∷ l) mp p h =
    let rest = ts_lengths-IsReady l mp p h in
    elim (ts_packets 4 0 n p)
      as (λ x.
        IsReady
          (elim x as (λ _. Answer × Sync) [
            | off ↦ (overrun, mp)
            | short ↦ (wait, mp)
            | miss ↦ ts_lengths l mp p
            | hit ↦ (detected, found_ts mp n)
          ]).1) [
            | off ↦ h
            | short ↦ h
            | miss ↦ rest
            | hit ↦ record { handler = inr (λ e. absurd (ground arith)) }
          ]

pub check_for_ts-IsReady : (mp : Sync) (p : Bytes) → IsReady mp → IsReady (check_for_ts mp p).1
unfolding check_for_ts
check_for_ts-IsReady mp p h = ts_lengths-IsReady (188 ∷ 204 ∷ 208 ∷ []) mp p h

usac_answer-IsReady : (mp : Sync) (a : Answer) → IsReady mp → IsReady (usac_answer mp a).1
unfolding usac_answer
usac_answer-IsReady mp detected h = record { handler = inr (λ e. absurd (ground arith)) }
usac_answer-IsReady mp absent h = h
usac_answer-IsReady mp wait h = h
usac_answer-IsReady mp overrun h = h
usac_answer-IsReady mp stuck h = h

pub check_for_usac-IsReady : (mp : Sync) (p : Bytes) → IsReady mp → IsReady (check_for_usac mp p).1
unfolding check_for_usac
check_for_usac-IsReady mp p h = usac_answer-IsReady mp _ h
