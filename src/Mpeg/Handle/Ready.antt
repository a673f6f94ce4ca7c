-- ===== src/Mpeg/Handle/Ready.antt =====
-- A handler of a frame leaves a parser whose bits to match have a handler.
use mcaster1dnas.Mpeg.Header.{mpeg_frame_length, frame_samplerate, aac_frame_len, aacp_sample_freq}
use mcaster1dnas.Base.{
  ℕ, Bool, Bytes, Option, none, arith, get_or, if-cases, if◌then◌else◌, inl, length, ltb, not, refl,
  some, subst, suc, take, true, zero, ◌%◌, ◌&&◌, ◌*◌, ◌+◌, ◌/◌, ◌==◌, ◌≡◌, ap,
}
use mcaster1dnas.Mpeg.Sync.{
  IsReady, Sync, aac_frame, id3_frame, mpeg_frame, ts_frame, unset, usac_frame,
}
use mcaster1dnas.Mpeg.Header.Rate.{mpeg_frame_length-IsReady}
use mcaster1dnas.Mpeg.Handle.{
  with_length, process_frame, Callback, Verdict, after_length, byte, frame, frame_of,
  handle_aac_frame, handle_id3_frame, handle_mpeg, handle_ts_frame, handle_usac_frame, more,
  no_samples, refused, reject, set_samplerate, take_mpeg,
}

record Ready (r : Verdict × Sync) : Type 0 where
  ready : IsReady r.1

leaves : (v : Verdict) (mp : Sync) → IsReady mp → Ready (v, mp)
leaves v mp h = record { ready = h }

Ready-if : (c : Bool) (x y : Verdict × Sync) → Ready x → Ready y → Ready (if c then x else y)
Ready-if c x y h k = if-cases Ready c x y (λ _. h) (λ _. k)

handle_aac_frame-Ready :
    (cb : Callback) (mp : Sync) (p : Bytes) → IsReady mp → Ready (handle_aac_frame cb mp p)
unfolding handle_aac_frame
handle_aac_frame-Ready cb mp p h =
    let n = aac_frame_len (byte p 3) (byte p 4) (byte p 5) in
    let noted : Sync =
      if get_or aacp_sample_freq (byte p 2 / 4 % 16) 0 == mp.samplerate
      then mp
      else set_samplerate mp mp.samplerate in
    let k : IsReady noted =
      if-cases IsReady (get_or aacp_sample_freq (byte p 2 / 4 % 16) 0 == mp.samplerate) mp
        (set_samplerate mp mp.samplerate) (λ _. h) (λ _. record { handler = h.handler }) in
    Ready-if (ltb (length p) n) _ _ (leaves more mp h) (
      Ready-if (refused cb p n (if byte p 1 % 2 == 1 then 7 else 9)) _ _
        (leaves reject _ (record { handler = k.handler }))
        (leaves (frame_of n) _ (record { handler = k.handler })))

take_mpeg-Ready :
    (cb : Callback) (mp : Sync) (p : Bytes) (n : ℕ) → IsReady mp → Ready (take_mpeg cb mp p n)
unfolding take_mpeg
take_mpeg-Ready cb mp p n h =
    let dropped : IsReady (no_samples mp) = record { handler = h.handler } in
    Ready-if (n == 0) _ _ (leaves reject (no_samples mp) dropped) (
      Ready-if (ltb (length p) n) _ _ (leaves more mp h) (
        Ready-if (refused cb p n (if byte p 1 % 2 == 1 then 4 else 6)) _ _
          (leaves reject (no_samples mp) dropped) (leaves (frame n) mp h)))

-- A result, if there is one.
record ReadyIf (o : Option (Verdict × Sync)) : Type 0 where
  when : (r : Verdict × Sync) → o ≡ some r → Ready r

done : (r : Verdict × Sync) → Ready r → ReadyIf (some r)
done r h = record { when = λ r' e. subst Ready (ap (λ o. elim o [ none ↦ r | some x ↦ x ]) e) h }

after_length-ReadyIf :
    (again : Sync → Option (Verdict × Sync)) (cb : Callback) (p : Bytes) (r : Option ℕ × Sync)
    → ((mp : Sync) → IsReady mp → ReadyIf (again mp))
    → IsReady r.1
    → ReadyIf (after_length again cb p r)
unfolding after_length
after_length-ReadyIf again cb p (some n, mp) f h = done _ (take_mpeg-Ready cb mp p n h)
after_length-ReadyIf again cb p (none, mp) f h =
    if-cases ReadyIf (frame_samplerate (byte p 1) (byte p 2) == 0) _ _
      (λ _.
        done (reject, no_samples mp)
          (leaves reject (no_samples mp) (record { handler = h.handler })))
      (λ _.
        f (set_samplerate mp (frame_samplerate (byte p 1) (byte p 2)))
          (record { handler = h.handler }))

handle_mpeg-ReadyIf :
    (fuel : ℕ) (cb : Callback) (mp : Sync) (p : Bytes)
    → IsReady mp
    → ReadyIf (handle_mpeg fuel cb mp p)
unfolding handle_mpeg
handle_mpeg-ReadyIf zero cb mp p h = record { when = λ r e. absurd (ground arith) }
handle_mpeg-ReadyIf (suc fuel) cb mp p h =
    after_length-ReadyIf (λ m. handle_mpeg fuel cb m p) cb p
      (mpeg_frame_length mp (byte p 1) (byte p 2)) (λ m k. handle_mpeg-ReadyIf fuel cb m p k)
      (mpeg_frame_length-IsReady mp (byte p 1) (byte p 2) h)

handle_ts_frame-Ready : (mp : Sync) (p : Bytes) → IsReady mp → Ready (handle_ts_frame mp p)
unfolding handle_ts_frame
handle_ts_frame-Ready mp p h =
    let n = mp.sample_count in
    Ready-if (ltb (length p) n) _ _ (leaves more mp h) (
      Ready-if (ltb n (length p) && not (byte p n == 0x47)) _ _
        (leaves reject (no_samples mp) (record { handler = h.handler })) (leaves (frame_of n) mp h))

handle_usac_frame-Ready : (mp : Sync) (p : Bytes) → IsReady mp → Ready (handle_usac_frame mp p)
unfolding handle_usac_frame
handle_usac_frame-Ready mp p h =
    let n = 3 + (byte p 1 % 32 * 256 + byte p 2) in
    Ready-if (ltb (length p) n) _ _ (leaves more mp h) (
      Ready-if (ltb n (length p) && not (byte p n == 0x56)) _ _
        (leaves reject (no_samples mp) (record { handler = h.handler })) (leaves (frame_of n) mp h))

handle_id3_frame-Ready : (mp : Sync) (p : Bytes) → IsReady mp → Ready (handle_id3_frame mp p)
unfolding handle_id3_frame
handle_id3_frame-Ready mp p h =
    let n = mp.sample_count in
    let copied : Sync =
      if mp.copy_meta then record mp { tag_data = take n p; changed = true } else mp in
    let k : IsReady copied =
      if-cases IsReady mp.copy_meta (record mp { tag_data = take n p; changed = true }) mp
        (λ _. record { handler = h.handler }) (λ _. h) in
    Ready-if (ltb (length p) n) _ _ (leaves more mp h) (
      Ready-if mp.keep_meta _ _
        (leaves (frame_of n) (record copied { mask = 0 }) (record { handler = inl refl }))
        (leaves reject copied k))

with_length-ReadyIf : (mp : Sync) (r : Verdict × Sync) → Ready r → ReadyIf (with_length mp r)
with_length-ReadyIf mp r h =
    if-cases ReadyIf (ltb mp.sample_count 2147483648) (some r) none (λ _. done r h)
      (λ _. record { when = λ s e. absurd (ground arith) })

process_frame-ReadyIf :
    (cb : Callback) (mp : Sync) (p : Bytes) → IsReady mp → ReadyIf (process_frame cb mp p)
unfolding process_frame
process_frame-ReadyIf cb mp p h =
    elim mp.process
      as (λ x. ReadyIf (elim x as (λ _. Option (Verdict × Sync)) [
        | unset ↦ none
        | aac_frame ↦ some (handle_aac_frame cb mp p)
        | mpeg_frame ↦ handle_mpeg 2 cb mp p
        | ts_frame ↦ with_length mp (handle_ts_frame mp p)
        | usac_frame ↦ some (handle_usac_frame mp p)
        | id3_frame ↦ with_length mp (handle_id3_frame mp p)
      ])) [
        | unset ↦ record { when = λ r e. absurd (ground arith) }
        | aac_frame ↦ done _ (handle_aac_frame-Ready cb mp p h)
        | mpeg_frame ↦ handle_mpeg-ReadyIf 2 cb mp p h
        | ts_frame ↦ with_length-ReadyIf mp _ (handle_ts_frame-Ready mp p h)
        | usac_frame ↦ done _ (handle_usac_frame-Ready mp p h)
        | id3_frame ↦ with_length-ReadyIf mp _ (handle_id3_frame-Ready mp p h)
      ]

pub process_frame-IsReady :
    (cb : Callback) (mp : Sync) (p : Bytes) (r : Verdict × Sync)
    → IsReady mp
    → process_frame cb mp p ≡ some r
    → IsReady r.1
process_frame-IsReady cb mp p r h e = let k = (process_frame-ReadyIf cb mp p h).when r e in k.ready

pub handle_id3_frame-IsReady :
    (mp : Sync) (p : Bytes) → IsReady mp → IsReady (handle_id3_frame mp p).1
handle_id3_frame-IsReady mp p h = let k = handle_id3_frame-Ready mp p h in k.ready
