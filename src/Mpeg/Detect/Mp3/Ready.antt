-- ===== src/Mpeg/Detect/Mp3/Ready.antt =====
-- The check for MPEG audio sets a handler together with the bits to match.
use mcaster1dnas.Mpeg.Header.{frame_samplerate, frame_layer, frame_version, mpeg_frame_length}
use mcaster1dnas.Mpeg.Handle.{byte}
use mcaster1dnas.Mpeg.Detect.Answers.{Answer, detected, absent, wait, overrun, stuck}
use mcaster1dnas.Base.{
  ℕ, Bool-cases, Bytes, Option, [], arith, drop, if-cases, if◌then◌else◌, inl, inr, leb, length,
  ltb, none, not, refl, some, subst, suc, sym, zero, ◌&&◌, ◌+◌, ◌-◌, ◌==◌, ◌||◌, ◌∷◌, ◌≡◌,
}
use mcaster1dnas.Mpeg.Sync.{IsReady, Sync}
use mcaster1dnas.Mpeg.Header.Rate.{mpeg_frame_length-IsReady}
use mcaster1dnas.Mpeg.Detect.Mp3.{
  check_for_mp3, Next, Tally, counted, frame_next, go, mp3_answer, mp3_frames, mp3_search, stop,
  with_version,
}

-- The state that a pass leaves.
abbrev state_of : Next → Sync
state_of (stop a mp) = mp
state_of (go n mp) = mp

frame_next-state :
    (rate remaining h1 h2 : ℕ) (r : Option ℕ × Sync)
    → state_of (frame_next rate remaining h1 h2 r) ≡ r.1
unfolding frame_next
frame_next-state rate remaining h1 h2 (none, mp) = refl
frame_next-state rate remaining h1 h2 (some n, mp) =
    if-cases (λ x. state_of x ≡ mp) ((n == 0) || ltb 3000 n) _ _ (λ _. refl)
      (λ _.
        if-cases (λ x. state_of x ≡ mp) (ltb remaining n) _ _ (λ _. refl)
          (λ _.
            if-cases (λ x. state_of x ≡ mp) (not (rate == frame_samplerate h1 h2)) _ _ (λ _. refl)
              (λ _. refl)))

record Kept (r : Answer × Sync × Tally) : Type 0 where
  ready : IsReady r.1

frames-Kept :
    (fuel b1 rate checking : ℕ) (mp : Sync) (fh : Bytes) (t : Tally)
    → IsReady mp
    → Kept (mp3_frames fuel b1 rate checking mp fh t)
unfolding mp3_frames
frames-Kept zero b1 rate checking mp fh t h = record { ready = h }
frames-Kept (suc fuel) b1 rate checking mp [] t h = record { ready = h }
frames-Kept (suc fuel) b1 rate checking mp (h0 ∷ []) t h = record { ready = h }
frames-Kept (suc fuel) b1 rate checking mp (h0 ∷ h1 ∷ []) t h = record { ready = h }
frames-Kept (suc fuel) b1 rate checking mp (h0 ∷ h1 ∷ h2 ∷ fh) t h =
    elim (Bool-cases (leb (length fh) 1)) [
      | inl e ↦ rw e (record { ready = h })
      | inr e ↦ elim (Bool-cases ((h0 == 255) && (h1 == b1))) [
        | inr f ↦ rw (e, f) (record { ready = h })
        | inl f ↦
            rw (e, f)
              (pass (λ mp' fh' t'. frames-Kept fuel b1 rate (checking - 1) mp' fh' t')
                (frame_next rate (length fh + 3) h1 h2 (mpeg_frame_length mp h1 h2))
                (subst IsReady
                  (sym (frame_next-state rate (length fh + 3) h1 h2 (mpeg_frame_length mp h1 h2)))
                  (mpeg_frame_length-IsReady mp h1 h2 h)))
      ]
    ]
  where
    pass :
        ((mp' : Sync) (fh' : Bytes) (t' : Tally)
          → IsReady mp'
          → Kept (mp3_frames fuel b1 rate (checking - 1) mp' fh' t'))
        → (x : Next) → IsReady (state_of x)
        → Kept (elim x as (λ _. Answer × Sync × Tally) [
          | stop a mp' ↦ (a, mp', t)
          | go n mp' ↦
              let rest =
                mp3_frames fuel b1 rate
                  (checking - 1)
                  mp'
                  (drop n (h0 ∷ h1 ∷ h2 ∷ fh))
                  (counted t mp') in
              if checking == 1 then (detected, mp', counted t mp') else rest
        ])
    pass rest (stop a mp') k = record { ready = k }
    pass rest (go n mp') k =
        if-cases Kept (checking == 1) _ _ (λ _. record { ready = k })
          (λ _. rest mp' (drop n (h0 ∷ h1 ∷ h2 ∷ fh)) (counted t mp') k)

mp3_answer-IsReady :
    (b3 : ℕ) (a : Answer) (mp : Sync) (t : Tally)
    → IsReady mp
    → IsReady (mp3_answer b3 (a, mp, t)).1
unfolding mp3_answer
mp3_answer-IsReady b3 detected mp t h = record { handler = inr (λ e. absurd (ground arith)) }
mp3_answer-IsReady b3 absent mp t h = h
mp3_answer-IsReady b3 wait mp t h = h
mp3_answer-IsReady b3 overrun mp t h = h
mp3_answer-IsReady b3 stuck mp t h = h

mp3_search-IsReady : (mp : Sync) (p : Bytes) → IsReady mp → IsReady (mp3_search mp p).1
unfolding mp3_search
mp3_search-IsReady mp p h =
    let k =
      frames-Kept (length p) (byte p 1) (frame_samplerate (byte p 1) (byte p 2)) mp.chkframes
        (record mp { samplerate = frame_samplerate (byte p 1) (byte p 2) }) p
        (record { frames = 0; bitrates = 0 }) (record { handler = h.handler }) in
    mp3_answer-IsReady (byte p 3) _ _ _ k.ready

pub check_for_mp3-IsReady : (mp : Sync) (p : Bytes) → IsReady mp → IsReady (check_for_mp3 mp p).1
unfolding check_for_mp3
check_for_mp3-IsReady mp p h =
    let versioned : IsReady (with_version mp p) = record { handler = h.handler } in
    if-cases (λ (r : Answer × Sync). IsReady r.1)
      ((frame_layer (byte p 1) == 0) || ltb (byte p 1) 0xE0 || (frame_version (byte p 1) == 1))
      (absent, mp)
      (if frame_samplerate (byte p 1) (byte p 2) == 0
        then (absent, with_version mp p)
        else mp3_search (with_version mp p) p)
      (λ _. h)
      (λ _.
        if-cases (λ (r : Answer × Sync). IsReady r.1) (frame_samplerate (byte p 1) (byte p 2) == 0)
          (absent, with_version mp p) (mp3_search (with_version mp p) p) (λ _. versioned)
          (λ _. mp3_search-IsReady (with_version mp p) p versioned))
