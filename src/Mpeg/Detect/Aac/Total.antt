-- ===== src/Mpeg/Detect/Aac/Total.antt =====
-- `check_for_aac` always answers, and stays within the block.
use mcaster1dnas.Mpeg.Detect.{get_msb4}
use mcaster1dnas.Mpeg.Handle.{byte}
use mcaster1dnas.Mpeg.Sync.{Sync}
use mcaster1dnas.Mpeg.Header.{aac_frame_len, aacp_num_channels, aacp_sample_freq, frame_layer}
use mcaster1dnas.Base.{
  ℕ, Bool, Bool-cases, Bytes, Option, Option-cases, [], arith, drop, get_elem?-some, inl, inr, leb,
  length, length-drop, ltb, none, refl, some, suc, zero, ◌%◌, ◌+◌, ◌-◌, ◌<◌, ◌==◌, ◌||◌, ◌∷◌, ◌≡◌,
  ◌≤◌, ◌⊎◌, ap, get_or, if-cases, if◌then◌else◌, ◌&&◌, ◌*◌, ◌/◌, ◌∙◌,
}
use mcaster1dnas.Mpeg.Detect.Answers.{Answer, absent, detected, wait, overrun, stuck}
use mcaster1dnas.Mpeg.Detect.Aac.{
  aac_frames, Count, blocks_of, frame_len_of, same_frame, aac_answer, check_for_aac,
}

frame_len_of-some : (fh : Bytes) → 6 ≤ length fh → (n : ℕ) × (frame_len_of fh ≡ some n)
unfolding frame_len_of
frame_len_of-some [] h = absurd (omega arith)
frame_len_of-some (a ∷ []) h = absurd (omega arith)
frame_len_of-some (a ∷ b ∷ []) h = absurd (omega arith)
frame_len_of-some (a ∷ b ∷ c ∷ []) h = absurd (omega arith)
frame_len_of-some (a ∷ b ∷ c ∷ d ∷ []) h = absurd (omega arith)
frame_len_of-some (a ∷ b ∷ c ∷ d ∷ e ∷ []) h = absurd (omega arith)
frame_len_of-some (a ∷ b ∷ c ∷ d ∷ e ∷ f ∷ fh) h = (aac_frame_len d e f, refl)

same_frame-some :
    (p1 p2 p3 : ℕ) (fh : Bytes) → 4 ≤ length fh → (b : Bool) × (same_frame p1 p2 p3 fh ≡ some b)
unfolding same_frame
same_frame-some p1 p2 p3 [] h = absurd (omega arith)
same_frame-some p1 p2 p3 (a ∷ []) h = absurd (omega arith)
same_frame-some p1 p2 p3 (a ∷ b ∷ []) h = absurd (omega arith)
same_frame-some p1 p2 p3 (a ∷ b ∷ c ∷ []) h = absurd (omega arith)
same_frame-some p1 p2 p3 (a ∷ b ∷ c ∷ d ∷ fh) h = (_, refl)

blocks_of-some :
    (p1 p2 p3 n : ℕ) (fh : Bytes)
    → 0 < n
    → n + 5 < length fh
    → (b : Option ℕ) × (blocks_of p1 p2 p3 n fh ≡ some b)
unfolding blocks_of
blocks_of-some p1 p2 p3 n fh h k =
    let (same, e) = same_frame-some p1 p2 p3 (drop n fh) (omega (arith, length-drop n fh)) in
    let (h6, e6) = get_elem?-some fh 6 (omega arith) in
    elim (Bool-cases same) [
      | inl f ↦ (some (h6 % 4 + 1), rw (e, f, e6, blocks_of))
      | inr f ↦ (none, rw (e, f, blocks_of))
    ]

-- What the loop ends with, from `checking` frames wanted and `blocks` counted.
record Judged (checking blocks : ℕ) (r : Answer × Count) : Type 0 where
  answers : (r.0 ≡ wait) ⊎ (r.0 ≡ absent) ⊎ (r.0 ≡ detected)
  counted : r.0 ≡ detected → blocks + checking ≤ r.1.blocks

Judged-end :
    (checking : ℕ) (t : Count)
    → Judged checking t.blocks (if ltb 0 checking then wait else detected, t)
Judged-end checking t = elim (Bool-cases (ltb 0 checking)) [
  | inl e ↦ record { answers = inl (rw e); counted = λ k. absurd (ground arith) }
  | inr e ↦ record { answers = inr (inr (rw e)); counted = λ k. ground arith }
]

Judged-absent : (checking : ℕ) (t : Count) → Judged checking t.blocks (absent, t)
Judged-absent checking t = record { answers = inr (inl refl); counted = λ k. absurd (ground arith) }

Judged-next :
    (checking blocks m : ℕ) (r : Answer × Count)
    → 0 < m
    → Judged (checking - 1) (blocks + m) r
    → Judged checking blocks r
Judged-next checking blocks m r h k = record {
  answers = k.answers;
  counted = λ e. let x = k.counted e in omega arith;
}

blocks_of-pos :
    (p1 p2 p3 n : ℕ) (fh : Bytes) (m : ℕ) → blocks_of p1 p2 p3 n fh ≡ some (some m) → 0 < m
unfolding blocks_of
blocks_of-pos p1 p2 p3 n fh m h = ground arith

frames-Judged :
    (fuel p1 p2 p3 checking : ℕ) (fh : Bytes) (t : Count)
    → 6 ≤ length fh
    → length fh ≤ fuel
    → Judged checking t.blocks (aac_frames fuel p1 p2 p3 checking fh t)
unfolding aac_frames
frames-Judged zero p1 p2 p3 checking fh t h k = absurd (omega arith)
frames-Judged (suc fuel) p1 p2 p3 checking fh t h k =
    let (n, e) = frame_len_of-some fh h in
    elim (Bool-cases ((n == 0) || ltb 8192 n)) [
      | inl f ↦ rw (e, f, aac_frames) (Judged-absent checking t)
      | inr f ↦ elim (Bool-cases (leb (length fh) (n + 5))) [
        | inl g ↦ rw (e, f, g, aac_frames) (Judged-end checking t)
        | inr g ↦
            let (b, q) = blocks_of-some p1 p2 p3 n fh (ground arith) (ground arith) in
            elim (Option-cases b) [
              | inl z ↦ rw (e, f, g, q, z, aac_frames) (Judged-absent checking t)
              | inr (m, z) ↦
                  rw (e, f, g, q, z, aac_frames)
                    (Judged-next checking t.blocks m _
                      (blocks_of-pos p1 p2 p3 n fh m (q ∙ ap some z))
                      (frames-Judged fuel p1 p2 p3 (checking - 1) (drop n fh)
                        (record {
                          frames = t.frames + 1;
                          bytes = t.bytes + n;
                          blocks = t.blocks + m;
                        })
                        (ground (arith, length-drop n fh)) (ground (arith, length-drop n fh))))
            ]
      ]
    ]

-- A result of `check_for_aac`.
record IsSound (estimate : ℕ → ℕ → ℕ → ℕ → ℕ) (mp : Sync) (r : Answer × Sync) : Type 0 where
  answers : (r.0 ≡ wait) ⊎ (r.0 ≡ absent) ⊎ (r.0 ≡ detected)
  found :
      r.0 ≡ detected
      → (0 < r.1.samplerate)
        × (0 < r.1.channels)
        × ((bytes : ℕ) × (frames : ℕ) × (blocks : ℕ) × (mp.chkframes ≤ blocks)
            × (r.1.bitrate ≡ get_msb4 (estimate bytes frames blocks r.1.samplerate)))

answer-IsSound :
    (estimate : ℕ → ℕ → ℕ → ℕ → ℕ) (mp : Sync) (rate channels : ℕ) (r : Answer × Count)
    → Judged mp.chkframes 0 r
    → IsSound estimate mp (aac_answer estimate mp rate channels r)
unfolding aac_answer
answer-IsSound estimate mp rate channels (detected, t) h =
    elim (Bool-cases ((rate == 0) || (channels == 0))) [
      | inl e ↦ rw e (record { answers = inr (inl refl); found = λ k. absurd (ground arith) })
      | inr e ↦ rw e (record {
        answers = inr (inr refl);
        found = λ _. (
          ground arith,
          ground arith,
          (t.bytes, t.frames, t.blocks, (let x = h.counted refl in omega arith), refl),
        );
      })
    ]
answer-IsSound estimate mp rate channels (wait, t) h = record {
  answers = inl refl;
  found = λ k. absurd (ground arith);
}
answer-IsSound estimate mp rate channels (absent, t) h = record {
  answers = inr (inl refl);
  found = λ k. absurd (ground arith);
}
answer-IsSound estimate mp rate channels (overrun, t) h = absurd (let x = h.answers in ground arith)
answer-IsSound estimate mp rate channels (stuck, t) h = absurd (let x = h.answers in ground arith)

answer_found :
    (estimate : ℕ → ℕ → ℕ → ℕ → ℕ) (mp : Sync) (p : Bytes)
    → 6 ≤ length p
    → IsSound estimate mp (check_for_aac estimate mp p)
unfolding check_for_aac
answer_found estimate mp p h =
    let b1 = byte p 1 in
    let b2 = byte p 2 in
    let b3 = byte p 3 in
    let t : Count = record { frames = 0; bytes = 0; blocks = 0 } in
    let rate = get_or aacp_sample_freq (b2 / 4 % 16) 0 in
    let channels = get_or aacp_num_channels ((b2 * 256 + b3) / 64 % 8) 0 in
    let r = aac_frames (length p) b1 b2 b3 mp.chkframes p t in
    if-cases (IsSound estimate mp) ((frame_layer b1 == 0) && leb 0xF0 b1 && leb b1 0xF9)
      (aac_answer estimate mp rate channels r) (absent, mp)
      (λ _.
        answer-IsSound estimate mp rate channels r
          (frames-Judged (length p) b1 b2 b3 mp.chkframes p t h (omega arith)))
      (λ _. record { answers = inr (inl refl); found = λ k. absurd (ground arith) })

-- On a block of at least six bytes `check_for_aac` gives one of its three results, without a read
-- outside the block; the number of bytes is fuel enough.
pub check_for_aac-Answers :
    (estimate : ℕ → ℕ → ℕ → ℕ → ℕ) (mp : Sync) (p : Bytes)
    → 6 ≤ length p
    → ((check_for_aac estimate mp p).0 ≡ wait)
      ⊎ ((check_for_aac estimate mp p).0 ≡ absent)
      ⊎ ((check_for_aac estimate mp p).0 ≡ detected)
check_for_aac-Answers estimate mp p h = (answer_found estimate mp p h).answers

-- Where `check_for_aac` finds the format in a block of at least six bytes, it notes a sample rate
-- and a number of channels that are not 0, and an estimate of the bitrate that divides by a number
-- of blocks no less than the number of frames to check.
pub check_for_aac-found :
    (estimate : ℕ → ℕ → ℕ → ℕ → ℕ) (mp : Sync) (p : Bytes)
    → 6 ≤ length p
    → (check_for_aac estimate mp p).0 ≡ detected
    → (0 < (check_for_aac estimate mp p).1.samplerate)
      × (0 < (check_for_aac estimate mp p).1.channels)
      × ((bytes : ℕ) × (frames : ℕ) × (blocks : ℕ) × (mp.chkframes ≤ blocks)
          × ((check_for_aac estimate mp p).1.bitrate
              ≡ get_msb4 (estimate bytes frames blocks (check_for_aac estimate mp p).1.samplerate)))
check_for_aac-found estimate mp p h k = (answer_found estimate mp p h).found k
