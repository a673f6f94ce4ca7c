-- ===== src/Mpeg/Detect/Mp3/Total.antt =====
-- `check_for_mp3` always answers, and what it takes for MPEG audio is a chain of frames.
use mcaster1dnas.Mpeg.Handle.{byte}
use mcaster1dnas.Base.{
  ℕ, Bool-cases, Bytes, arith, drop, if◌then◌else◌, inl, inr, length, ltb, refl, suc, ◌-◌, ◌<◌,
  ◌==◌, ◌||◌, ◌∷◌, ◌≡◌, ◌≤◌, ◌⊎◌, [], if-cases, length-drop, subst, sym, zero, ap, ◌∙◌,
}
use mcaster1dnas.Mpeg.Detect.Answers.{Answer, absent, detected, wait, overrun, stuck}
use mcaster1dnas.Mpeg.Header.{frame_samplerate, frame_layer, frame_version}
use mcaster1dnas.Mpeg.Sync.{Sync}
use mcaster1dnas.Mpeg.Detect.Mp3.{
  Tally, counted, mp3_frames, check_for_mp3, mp3_answer, mp3_search, with_version,
}
use mcaster1dnas.Mpeg.Detect.Mp3.Passes.{IsChain, cons, nil, pass-cases}

Answers : Answer → Type 0
Answers a = (a ≡ wait) ⊎ (a ≡ absent) ⊎ (a ≡ detected)

frames-Answers :
    (fuel b1 rate checking : ℕ) (mp : Sync) (fh : Bytes) (t : Tally)
    → 0 < fuel
    → length fh ≤ fuel
    → Answers (mp3_frames fuel b1 rate checking mp fh t).0
unfolding mp3_frames Answers
frames-Answers zero b1 rate checking mp fh t h k = absurd (omega arith)
frames-Answers (suc fuel) b1 rate checking mp [] t h k = inl refl
frames-Answers (suc fuel) b1 rate checking mp (h0 ∷ []) t h k = inl refl
frames-Answers (suc fuel) b1 rate checking mp (h0 ∷ h1 ∷ []) t h k = inl refl
frames-Answers (suc fuel) b1 rate checking mp (h0 ∷ h1 ∷ h2 ∷ fh) t h k =
    elim (pass-cases fuel b1 rate checking mp h0 h1 h2 fh t) [
      | inl (inl e) ↦ inl e
      | inl (inr e) ↦ inr (inl e)
      | inr g ↦
          subst (λ r. Answers r.0) (sym g.result)
            (if-cases (λ (r : Answer × Sync × Tally). Answers r.0) (checking == 1) _ _
              (λ _. inr (inr refl))
              (λ _.
                frames-Answers fuel b1 rate (checking - 1) g.mp' (drop g.n (h0 ∷ h1 ∷ h2 ∷ fh))
                  (counted t g.mp') (let x = g.five in omega arith)
                  (let x = g.moves in omega (arith, length-drop g.n (h0 ∷ h1 ∷ h2 ∷ fh)))))
    ]

not_last {ℓ} : {A : Type ℓ} (c : ℕ) (x y : A) → 0 < c → (if suc c == 1 then x else y) ≡ y
not_last c x y h = if-cases (λ r. r ≡ y) (suc c == 1) x y (λ e. absurd (ground arith)) (λ _. refl)

frames-IsChain :
    (fuel b1 rate checking : ℕ) (mp : Sync) (fh : Bytes) (t : Tally)
    → 0 < checking
    → (mp3_frames fuel b1 rate checking mp fh t).0 ≡ detected
    → IsChain b1 rate checking fh
unfolding mp3_frames
frames-IsChain zero b1 rate checking mp fh t h k = absurd (ground arith)
frames-IsChain (suc fuel) b1 rate checking mp [] t h k = absurd (ground arith)
frames-IsChain (suc fuel) b1 rate checking mp (h0 ∷ []) t h k = absurd (ground arith)
frames-IsChain (suc fuel) b1 rate checking mp (h0 ∷ h1 ∷ []) t h k = absurd (ground arith)
frames-IsChain (suc fuel) b1 rate zero mp (h0 ∷ h1 ∷ h2 ∷ fh) t h k = absurd (omega arith)
frames-IsChain (suc fuel) b1 rate (suc checking) mp (h0 ∷ h1 ∷ h2 ∷ fh) t h k =
    elim (pass-cases fuel b1 rate (suc checking) mp h0 h1 h2 fh t) [
      | inl (inl e) ↦ absurd (ground arith)
      | inl (inr e) ↦ absurd (ground arith)
      | inr g ↦
          let back : suc checking - 1 ≡ checking = omega arith in
          let tail : IsChain b1 rate checking (drop g.n (h0 ∷ h1 ∷ h2 ∷ fh)) =
            elim (Bool-cases (ltb 0 checking)) [
              | inl e ↦
                  frames-IsChain fuel b1 rate checking g.mp' (drop g.n (h0 ∷ h1 ∷ h2 ∷ fh))
                    (counted t g.mp') (ground arith)
                    (subst
                      (λ c.
                        (mp3_frames fuel b1 rate c g.mp' (drop g.n (h0 ∷ h1 ∷ h2 ∷ fh))
                          (counted t g.mp')).0
                        ≡ detected)
                      back
                      (ap (λ r. r.0) (sym (g.result ∙ not_last checking _ _ (ground arith))) ∙ k))
              | inr e ↦
                  let none_left : 0 ≡ checking = ground arith in
                  subst (λ c. IsChain b1 rate c (drop g.n (h0 ∷ h1 ∷ h2 ∷ fh))) none_left nil
            ] in
          cons h0 h1 h2 g.n fh mp g.mp' g.sync g.header g.len g.same_rate g.moves g.within tail
    ]

answer_kept : (b3 : ℕ) (a : Answer) (mp : Sync) (t : Tally) → (mp3_answer b3 (a, mp, t)).0 ≡ a
unfolding mp3_answer
answer_kept b3 detected mp t = refl
answer_kept b3 absent mp t = refl
answer_kept b3 wait mp t = refl
answer_kept b3 overrun mp t = refl
answer_kept b3 stuck mp t = refl

record Judged (mp : Sync) (p : Bytes) (r : Answer × Sync) : Type 0 where
  answers : Answers r.0
  chain :
      r.0 ≡ detected → IsChain (byte p 1) (frame_samplerate (byte p 1) (byte p 2)) mp.chkframes p

Judged-absent : (mp : Sync) (p : Bytes) (mp' : Sync) → Judged mp p (absent, mp')
unfolding Answers
Judged-absent mp p mp' = record { answers = inr (inl refl); chain = λ e. absurd (ground arith) }

mp3_search-Judged :
    (mp : Sync) (p : Bytes)
    → 0 < length p
    → 0 < mp.chkframes
    → Judged mp p (mp3_search (with_version mp p) p)
unfolding mp3_search
mp3_search-Judged mp p h k =
    let rate = frame_samplerate (byte p 1) (byte p 2) in
    let mp' : Sync = record (with_version mp p) { samplerate = rate } in
    let t : Tally = record { frames = 0; bitrates = 0 } in
    let r = mp3_frames (length p) (byte p 1) rate mp.chkframes mp' p t in
    let kept = answer_kept (byte p 3) r.0 r.1 r.2 in
    record {
      answers = subst Answers (sym kept) (frames-Answers _ _ _ _ mp' p t h (omega arith));
      chain = λ e. frames-IsChain _ _ _ _ mp' p t k (sym kept ∙ e);
    }

check_for_mp3-Judged :
    (mp : Sync) (p : Bytes) → 0 < length p → 0 < mp.chkframes → Judged mp p (check_for_mp3 mp p)
unfolding check_for_mp3
check_for_mp3-Judged mp p h k =
    let b1 = byte p 1 in
    let sampled : Answer × Sync =
      if frame_samplerate b1 (byte p 2) == 0
      then (absent, with_version mp p)
      else mp3_search (with_version mp p) p in
    if-cases (Judged mp p) ((frame_layer b1 == 0) || ltb b1 0xE0 || (frame_version b1 == 1))
      (absent, mp) sampled (λ _. Judged-absent mp p mp)
      (λ _.
        if-cases (Judged mp p) (frame_samplerate b1 (byte p 2) == 0) (absent, with_version mp p)
          (mp3_search (with_version mp p) p) (λ _. Judged-absent mp p (with_version mp p))
          (λ _. mp3_search-Judged mp p h k))

-- `check_for_mp3` gives one of its three results on every block that is not empty, without a read
-- outside it; the number of bytes is fuel enough. There are frames to check.
pub check_for_mp3-Answers :
    (mp : Sync) (p : Bytes)
    → 0 < length p
    → 0 < mp.chkframes
    → ((check_for_mp3 mp p).0 ≡ wait)
      ⊎ ((check_for_mp3 mp p).0 ≡ absent)
      ⊎ ((check_for_mp3 mp p).0 ≡ detected)
unfolding Answers
check_for_mp3-Answers mp p h k = (check_for_mp3-Judged mp p h k).answers

-- Where `check_for_mp3` finds the format and there are frames to check, the block begins with a
-- chain of so many frames, all with the second byte and the sample rate of the first.
pub check_for_mp3-IsChain :
    (mp : Sync) (p : Bytes)
    → 0 < length p
    → 0 < mp.chkframes
    → (check_for_mp3 mp p).0 ≡ detected
    → IsChain (byte p 1) (frame_samplerate (byte p 1) (byte p 2)) mp.chkframes p
check_for_mp3-IsChain mp p h k e = (check_for_mp3-Judged mp p h k).chain e
