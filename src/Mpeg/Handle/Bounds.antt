-- ===== src/Mpeg/Handle/Bounds.antt =====
-- What every handler of a frame guarantees to `mpeg_complete_frames_cb`.
use mcaster1dnas.Mpeg.Header.Rate.{mpeg_frame_length-cases}
use mcaster1dnas.Mpeg.Header.{frame_samplerate}
use mcaster1dnas.Base.{
  lt→ltb, true, ℕ, Bytes, arith, length, ◌<◌, ◌==◌, ◌≤◌, Bool, if-cases, if◌then◌else◌, ltb, ◌%◌,
  false, some, ◌≡◌, Bool-cases, inl, inr, refl, suc, ◌≢◌,
}
use mcaster1dnas.Mpeg.Sync.{
  Sync, unset, aac_frame, id3_frame, mpeg_frame, ts_frame, usac_frame, Process,
}
use mcaster1dnas.Mpeg.Handle.{
  Callback, Verdict, frame, frame_of, more, reject, byte, handle_id3_frame, refused, take_mpeg,
  handle_aac_frame, handle_mpeg, handle_ts_frame, handle_usac_frame, no_samples, process_frame,
  set_samplerate, after_length,
}

-- A frame moves the parser on, and not beyond the block.
pub IsWithin : Bytes → Verdict → Type 0
IsWithin p reject = Unit
IsWithin p more = Unit
IsWithin p (frame n) = (0 < n) × (n ≤ length p)

abbrev Within : Bytes → Verdict × Sync → Type 0
Within p r = IsWithin p r.0

frame_of-IsWithin : (p : Bytes) (n : ℕ) → n ≤ length p → IsWithin p (frame_of n)
unfolding IsWithin
frame_of-IsWithin p n h =
    if-cases (IsWithin p) (n == 0) more (frame n) (λ _. tt) (λ e. (ground arith, h))

-- The shape that three handlers share.
checked_frame :
    (p : Bytes) (n : ℕ) (c : Bool) (mp mp' mp'' : Sync)
    → Within p
        (if ltb (length p) n then (more, mp) else if c then (reject, mp') else (frame_of n, mp''))
unfolding IsWithin
checked_frame p n c mp mp' mp'' =
    if-cases (Within p) (ltb (length p) n) _ _ (λ _. tt)
      (λ e. if-cases (Within p) c _ _ (λ _. tt) (λ _. frame_of-IsWithin p n (ground arith)))

handle_id3_frame-IsWithin : (mp : Sync) (p : Bytes) → Within p (handle_id3_frame mp p)
unfolding handle_id3_frame IsWithin
handle_id3_frame-IsWithin mp p =
    if-cases (Within p) (ltb (length p) mp.sample_count) _ _ (λ _. tt)
      (λ e.
        if-cases (Within p) mp.keep_meta _ _
          (λ _. frame_of-IsWithin p mp.sample_count (ground arith)) (λ _. tt))

take_mpeg-IsWithin :
    (cb : Callback) (mp : Sync) (p : Bytes) (n : ℕ) → Within p (take_mpeg cb mp p n)
unfolding take_mpeg IsWithin
take_mpeg-IsWithin cb mp p n =
    if-cases (Within p) (n == 0) _ _ (λ _. tt)
      (λ e.
        if-cases (Within p) (ltb (length p) n) _ _ (λ _. tt)
          (λ k.
            if-cases (Within p) (refused cb p n (if byte p 1 % 2 == 1 then 4 else 6)) _ _ (λ _. tt)
              (λ _. (ground arith, ground arith))))

-- A second look at the frame, after its rate is set, finds a length.
handle_mpeg-again :
    (fuel : ℕ) (cb : Callback) (mp : Sync) (p : Bytes)
    → (frame_samplerate (byte p 1) (byte p 2) == 0) ≡ false
    → mp.samplerate ≡ frame_samplerate (byte p 1) (byte p 2)
    → (r : Verdict × Sync) × (handle_mpeg (suc fuel) cb mp p ≡ some r) × Within p r
unfolding handle_mpeg after_length
handle_mpeg-again fuel cb mp p h k = elim (mpeg_frame_length-cases mp (byte p 1) (byte p 2)) [
  | inl (e, differs) ↦ absurd (differs h k)
  | inr (n, mp', e, same) ↦
      (take_mpeg cb mp' p n, rw (e, handle_mpeg), take_mpeg-IsWithin cb mp' p n)
]

handle_mpeg-IsWithin :
    (fuel : ℕ) (cb : Callback) (mp : Sync) (p : Bytes)
    → (r : Verdict × Sync) × (handle_mpeg (suc (suc fuel)) cb mp p ≡ some r) × Within p r
unfolding handle_mpeg after_length IsWithin
handle_mpeg-IsWithin fuel cb mp p = elim (mpeg_frame_length-cases mp (byte p 1) (byte p 2)) [
  | inl (e, differs) ↦ elim (Bool-cases (frame_samplerate (byte p 1) (byte p 2) == 0)) [
    | inl z ↦ ((reject, no_samples mp), rw (e, z, handle_mpeg), tt)
    | inr z ↦
        let (r, q, w) =
          handle_mpeg-again fuel cb (set_samplerate mp (frame_samplerate (byte p 1) (byte p 2))) p z
            refl in
        (r, rw (e, z, handle_mpeg) q, w)
  ]
  | inr (n, mp', e, same) ↦
      (take_mpeg cb mp' p n, rw (e, handle_mpeg), take_mpeg-IsWithin cb mp' p n)
]

handle_aac_frame-IsWithin :
    (cb : Callback) (mp : Sync) (p : Bytes) → Within p (handle_aac_frame cb mp p)
unfolding handle_aac_frame
handle_aac_frame-IsWithin cb mp p = checked_frame p _ _ mp _ _

handle_ts_frame-IsWithin : (mp : Sync) (p : Bytes) → Within p (handle_ts_frame mp p)
unfolding handle_ts_frame
handle_ts_frame-IsWithin mp p = checked_frame p _ _ mp _ _

handle_usac_frame-IsWithin : (mp : Sync) (p : Bytes) → Within p (handle_usac_frame mp p)
unfolding handle_usac_frame
handle_usac_frame-IsWithin mp p = checked_frame p _ _ mp _ _

-- Once a format is known its handler gives a result, whatever the block holds and whatever the
-- callback answers, where the count of samples fits an int: two looks at a frame are enough, and a frame that is accepted has at least one
-- byte and ends within the block.
pub process_frame-IsWithin :
    (cb : Callback) (mp : Sync) (p : Bytes)
    → mp.process ≢ unset
    → mp.sample_count < 2147483648
    → (r : Verdict × Sync) × (process_frame cb mp p ≡ some r) × IsWithin p r.0
unfolding process_frame
process_frame-IsWithin cb mp p h n =
    let fits : ltb mp.sample_count 2147483648 ≡ true = lt→ltb _ _ n in
    let with_process : Process → Sync = λ x. record mp { process = x } in
    elim mp.process
        as (λ x.
          x ≢ unset
          → (r : Verdict × Sync) × (process_frame cb (with_process x) p ≡ some r)
            × IsWithin p r.0) [
              | unset ↦ λ h. absurd (h refl)
              | aac_frame ↦ λ _. (_, refl, handle_aac_frame-IsWithin cb (with_process aac_frame) p)
              | mpeg_frame ↦ λ _. handle_mpeg-IsWithin 0 cb (with_process mpeg_frame) p
              | ts_frame ↦ λ _. (
                handle_ts_frame (with_process ts_frame) p,
                rw fits refl,
                handle_ts_frame-IsWithin (with_process ts_frame) p,
              )
              | usac_frame ↦ λ _. (_, refl, handle_usac_frame-IsWithin (with_process usac_frame) p)
              | id3_frame ↦ λ _. (
                handle_id3_frame (with_process id3_frame) p,
                rw fits refl,
                handle_id3_frame-IsWithin (with_process id3_frame) p,
              )
            ]
      h
