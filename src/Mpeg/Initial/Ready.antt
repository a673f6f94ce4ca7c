-- ===== src/Mpeg/Initial/Ready.antt =====
-- Whenever there are bits to match, there is a handler for what matches them.
use mcaster1dnas.Mpeg.Detect.Aac.{check_for_aac}
use mcaster1dnas.Mpeg.Detect.Mp3.{check_for_mp3}
use mcaster1dnas.Mpeg.Detect.{check_for_ts, check_for_usac}
use Prim.Native.Nat.{bit_and}
use mcaster1dnas.Mpeg.Handle.{byte}
use mcaster1dnas.Mpeg.Detect.Answers.{Answer, detected, absent, wait, overrun, stuck}
use mcaster1dnas.Base.{
  ℕ, Bool, Bytes, Option, arith, false, if-cases, if◌then◌else◌, inr, length, none, some, true,
  ◌&&◌, ◌+◌, ◌==◌, codes, drop, ltb, replicate, ◌%◌, ◌++◌, [], leb, ◌/◌, ◌||◌, ◌∷◌,
}
use mcaster1dnas.Mpeg.Sync.{IsReady, Sync, ebml, ogg}
use mcaster1dnas.Mpeg.Initial.{
  get_initial_frame, Initial, after_tags, ape_tag, avoid, check_for_id3, first_handler, formats,
  id3_size, id3v1_tag, id3v2_tag, is_absent, make_val32, match_syncbits, noted, or_else, reset,
  tag_handler, wiped, with_layer, ape_len, starts, audio, found,
}
use mcaster1dnas.Mpeg.Detect.Ready.{check_for_ts-IsReady, check_for_usac-IsReady}
use mcaster1dnas.Mpeg.Detect.Mp3.Ready.{check_for_mp3-IsReady}
use mcaster1dnas.Mpeg.Detect.Aac.Ready.{check_for_aac-IsReady}

record ReadyTag (r : Answer × Sync × Bytes) : Type 0 where
  ready : IsReady r.1

same_tag : (a : Answer) (mp : Sync) (p : Bytes) → IsReady mp → ReadyTag (a, mp, p)
same_tag a mp p h = record { ready = h }

tag_if :
    (c : Bool) (x y : Answer × Sync × Bytes)
    → ReadyTag x
    → ReadyTag y
    → ReadyTag (if c then x else y)
tag_if c x y h k = if-cases ReadyTag c x y (λ _. h) (λ _. k)

wiped-ReadyTag : (mp : Sync) (p : Bytes) (n : ℕ) → IsReady mp → ReadyTag (wiped mp p n)
unfolding wiped
wiped-ReadyTag mp p n h =
    tag_if (ltb (length p) n) _ _ (same_tag overrun mp p h)
      (same_tag detected mp (replicate n 0 ++ drop n p) h)

first_handler-IsReady : (mp : Sync) (m : ℕ) → IsReady mp → IsReady (first_handler mp m)
first_handler-IsReady mp m h =
    if-cases IsReady (mp.mask == 0) (tag_handler mp m) mp
      (λ _. record { handler = inr (λ e. absurd (ground arith)) }) (λ _. h)

ape_tag-ReadyTag : (mp : Sync) (p : Bytes) (n : ℕ) → IsReady mp → ReadyTag (ape_tag mp p n)
unfolding ape_tag
ape_tag-ReadyTag mp p n h =
    let k = first_handler-IsReady mp 0x41 h in
    tag_if (ltb n (ape_len p)) _ _ (same_tag wait mp p h) (
      tag_if mp.keep_meta _ _
        (same_tag detected (record (first_handler mp 0x41) { sample_count = ape_len p }) p
          (record { handler = k.handler }))
        (wiped-ReadyTag mp p (ape_len p) h))

id3v1_tag-ReadyTag : (mp : Sync) (p : Bytes) (n : ℕ) → IsReady mp → ReadyTag (id3v1_tag mp p n)
unfolding id3v1_tag
id3v1_tag-ReadyTag mp p n h = tag_if (ltb n 128) _ _ (same_tag wait mp p h) (
    tag_if mp.keep_meta _ _
      (same_tag detected (record (tag_handler mp 0x54) { sample_count = 128 }) p
        (record { handler = inr (λ e. absurd (ground arith)) }))
      (wiped-ReadyTag mp p 128 h))

id3v2_tag-ReadyTag : (mp : Sync) (p : Bytes) (n : ℕ) → IsReady mp → ReadyTag (id3v2_tag mp p n)
unfolding id3v2_tag
id3v2_tag-ReadyTag mp p n h =
    let sized : Sync = record mp { sample_count = id3_size p + 10 } in
    tag_if (ltb n (id3_size p)) _ _
      (same_tag detected (record sized { resize = true }) p (record { handler = h.handler }))
      (same_tag detected (first_handler sized 0x49) p
        (first_handler-IsReady sized 0x49 (record { handler = h.handler })))

check_for_id3-ReadyTag :
    (mp : Sync) (p : Bytes) (n : ℕ) → IsReady mp → ReadyTag (check_for_id3 mp p n)
unfolding check_for_id3
check_for_id3-ReadyTag mp p n h = tag_if (ltb n 16) _ _ (same_tag wait mp p h) (
    tag_if (ltb (length p) 16) _ _ (same_tag overrun mp p h) (
      tag_if (starts (codes "APETAGEX") p) _ _ (ape_tag-ReadyTag mp p n h) (
        tag_if (starts (codes "TAG") p) _ _ (id3v1_tag-ReadyTag mp p n h) (
          tag_if
            (starts (codes "ID3") p
              && ltb (byte p 3) 0xFF
              && ltb (byte p 4) 0xFF
              && (byte p 5 % 16 == 0))
            _ _ (id3v2_tag-ReadyTag mp p n h) (same_tag absent mp p h)))))

initial_if :
    (c : Bool) (x y : Initial × Sync × Bytes)
    → IsReady x.1
    → IsReady y.1
    → IsReady (if c then x else y).1
initial_if c x y h k =
    if-cases (λ (r : Initial × Sync × Bytes). IsReady r.1) c x y (λ _. h) (λ _. k)

or_else-IsReady :
    (test : Bool) (check : Sync → Answer × Sync) (r : Answer × Sync)
    → ((mp : Sync) → IsReady mp → IsReady (check mp).1)
    → IsReady r.1
    → IsReady (or_else test check r).1
unfolding or_else
or_else-IsReady test check (a, mp) f h =
    if-cases (λ (r : Answer × Sync). IsReady r.1) (is_absent a && test) (check mp) (a, mp)
      (λ _. f mp h) (λ _. h)

noted-IsReady : (p : Bytes) (a : Answer) (mp : Sync) → IsReady mp → IsReady (noted p (a, mp)).1
unfolding noted
noted-IsReady p detected mp h = record { handler = h.handler }
noted-IsReady p absent mp h = h
noted-IsReady p wait mp h = h
noted-IsReady p overrun mp h = h
noted-IsReady p stuck mp h = h

pub match_syncbits-IsReady :
    (mp : Sync) (p : Bytes) (n : ℕ) → IsReady mp → IsReady (match_syncbits mp p n).1
unfolding match_syncbits
match_syncbits-IsReady mp p n h =
    if-cases (λ (r : Option Bool × Sync × Bytes). IsReady r.1)
      (bit_and (make_val32 p) mp.mask == mp.match_bits) _ _ (λ _. h)
      (λ _. marked (check_for_id3 mp p n) (check_for_id3-ReadyTag mp p n h))
  where
    marked :
        (r : Answer × Sync × Bytes)
        → ReadyTag r
        → IsReady
            (elim r.0 as (λ _. Option Bool × Sync × Bytes) [
              | absent ↦ (some false, r.1, r.2)
              | overrun ↦ (none, r.1, r.2)
              | _ ↦ (some true, record (r.1) { chk_tag = true }, r.2)
            ]).1
    marked (absent, mp, p) k = k.ready
    marked (overrun, mp, p) k = k.ready
    marked (detected, mp, p) k = let r = k.ready in record { handler = r.handler }
    marked (wait, mp, p) k = let r = k.ready in record { handler = r.handler }
    marked (stuck, mp, p) k = let r = k.ready in record { handler = r.handler }

module _ (estimate : ℕ → ℕ → ℕ → ℕ → ℕ) where
  audio-IsReady : (p : Bytes) (mp : Sync) → IsReady mp → IsReady (audio estimate p mp).1
  unfolding audio
  audio-IsReady p mp h =
      or_else-IsReady true (λ mp'. check_for_mp3 mp' p) (check_for_aac estimate (with_layer mp p) p)
        (λ mp' k. check_for_mp3-IsReady mp' p k)
        (check_for_aac-IsReady estimate (with_layer mp p) p (record { handler = h.handler }))

  formats-IsReady : (p : Bytes) (r : Answer × Sync) → IsReady r.1 → IsReady (formats estimate p r).1
  unfolding formats
  formats-IsReady p r h =
      let ts = or_else (byte p 0 == 0x47) (λ mp. check_for_ts mp p) r in
      let sound = or_else (leb 0xE0 (byte p 1)) (audio estimate p) ts in
      or_else-IsReady ((byte p 0 == 0x56) && (byte p 1 / 32 == 7)) (λ mp. check_for_usac mp p) sound
        (λ mp k. check_for_usac-IsReady mp p k)
        (or_else-IsReady (leb 0xE0 (byte p 1)) (audio estimate p) ts (audio-IsReady p) (
          or_else-IsReady (byte p 0 == 0x47) (λ mp. check_for_ts mp p) r
            (λ mp k. check_for_ts-IsReady mp p k) h))

  after_tags-IsReady : (r : Answer × Sync × Bytes) → ReadyTag r → IsReady (after_tags estimate r).1
  unfolding after_tags
  after_tags-IsReady (a, mp, p) h =
      let ready = h.ready in
      let r = noted p (formats estimate p (a, mp)) in
      let parsed : Initial × Sync × Bytes = (found r.0, r.1, p) in
      initial_if (starts (0x1A ∷ 0x45 ∷ 0xDF ∷ 0xA3 ∷ []) p)
        (found detected, record mp { skip_sync = true; format = ebml }, p)
        (if starts (codes "OggS") p
          then (found absent, record mp { skip_sync = true; format = ogg }, p)
          else parsed)
        (record { handler = ready.handler })
        (initial_if (starts (codes "OggS") p)
          (found absent, record mp { skip_sync = true; format = ogg }, p) parsed
          (record { handler = ready.handler })
          (noted-IsReady p (formats estimate p (a, mp)).0 (formats estimate p (a, mp)).1
            (formats-IsReady p (a, mp) ready)))

  pub get_initial_frame-IsReady :
      (mp : Sync) (p : Bytes) → IsReady mp → IsReady (get_initial_frame estimate mp p).1
  unfolding get_initial_frame
  get_initial_frame-IsReady mp p h =
      let again : IsReady (reset mp) = record { handler = h.handler } in
      let tagged : Answer × Sync × Bytes =
        if (byte p 0 == b'I') || (byte p 0 == b'T') || (byte p 0 == b'A')
        then check_for_id3 (reset mp) p (length p)
        else (absent, reset mp, p) in
      initial_if mp.skip_sync (avoid, mp, p) (after_tags estimate tagged) h
        (after_tags-IsReady tagged (
          tag_if ((byte p 0 == b'I') || (byte p 0 == b'T') || (byte p 0 == b'A')) _ _
            (check_for_id3-ReadyTag (reset mp) p (length p) again)
            (same_tag absent (reset mp) p again)))
