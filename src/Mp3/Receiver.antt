-- ===== src/Mp3/Receiver.antt =====
-- A receiver of a stream with metadata between its bytes, as the header icy-metaint announces it:
-- after every `interval` bytes comes a byte for the length of the metadata in units of 16 bytes.
use mcaster1dnas.Base.{
  ℕ, Bytes, [], ap, append-nil, append_assoc, ap₂, arith, if◌then◌else◌, length, ltb, refl, sym,
  true, ◌*◌, ◌++◌, ◌-◌, ◌∙◌, ◌∷◌, ◌≡◌, ◌≤◌,
}

-- Bytes until the next metadata, bytes of metadata to come, and the bytes of the stream so far.
pub record Receiver : Type 0 where
  pub audio_left : ℕ
  pub meta_left : ℕ
  pub audio : Bytes

abbrev pub receive : ℕ → Receiver → ℕ → Receiver
receive interval r byte =
    if ltb 0 r.meta_left
    then record r { meta_left = r.meta_left - 1 }
    else if ltb 0 r.audio_left
    then record r { audio_left = r.audio_left - 1; audio = r.audio ++ (byte ∷ []) }
    else record r { audio_left = interval; meta_left = byte * 16 }

unfoldable pub feed : ℕ → Receiver → Bytes → Receiver
feed interval r [] = r
feed interval r (byte ∷ bytes) = feed interval (receive interval r byte) bytes

pub feed-append :
    (interval : ℕ) (r : Receiver) (xs ys : Bytes)
    → feed interval r (xs ++ ys) ≡ feed interval (feed interval r xs) ys
unfolding feed
feed-append interval r [] ys = refl
feed-append interval r (x ∷ xs) ys = feed-append interval (receive interval r x) xs ys

-- Bytes of metadata.
pub feed_meta :
    (interval a m : ℕ) (audio bytes : Bytes)
    → length bytes ≤ m
    → feed interval (record { audio_left = a; meta_left = m; audio = audio }) bytes
      ≡ record { audio_left = a; meta_left = m - length bytes; audio = audio }
unfolding feed
feed_meta interval a m audio [] h =
    ap (λ n. record { audio_left = a; meta_left = n; audio = audio }) (omega arith)
feed_meta interval a m audio (x ∷ bytes) h =
    let p : ltb 0 m ≡ true = ground arith in
    rw (p, feed)
      (feed_meta interval a (m - 1) audio bytes (omega arith)
        ∙ ap (λ n. record { audio_left = a; meta_left = n; audio = audio }) (omega arith))

-- Bytes of the stream.
pub feed_audio :
    (interval a : ℕ) (audio bytes : Bytes)
    → length bytes ≤ a
    → feed interval (record { audio_left = a; meta_left = 0; audio = audio }) bytes
      ≡ record { audio_left = a - length bytes; meta_left = 0; audio = audio ++ bytes }
unfolding feed
feed_audio interval a audio [] h =
    ap₂ (λ n l. record { audio_left = n; meta_left = 0; audio = l }) (omega arith)
      (sym (append-nil audio))
feed_audio interval a audio (x ∷ bytes) h =
    let p : ltb 0 a ≡ true = ground arith in
    rw (p, feed)
      (feed_audio interval (a - 1) (audio ++ (x ∷ [])) bytes (omega arith)
        ∙ ap₂ (λ n l. record { audio_left = n; meta_left = 0; audio = l }) (omega arith)
            (append_assoc audio (x ∷ []) bytes))
