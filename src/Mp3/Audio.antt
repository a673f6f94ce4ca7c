-- ===== src/Mp3/Audio.antt =====
-- src/format_mp3.c, lines 650 to 703: bytes of the block before the next metadata is due.
use mcaster1dnas.Mp3.Sync.{
  InSync, Between, InStep, take-take, same-InStep, put_off-InSync, at_audio,
}
use mcaster1dnas.Mp3.Receiver.{Receiver, feed, feed_audio}
use mcaster1dnas.Base.{
  ℕ, Bytes, Option, ap, ap₂, arith, drop, inl, length, length-drop, length-take, min, none, refl,
  some, take, ◌++◌, ◌+◌, ◌-◌, ◌<◌, ◌∙◌, ◌≡◌, ◌≤◌,
}
use mcaster1dnas.Mp3.{Client, Block, advance, after_audio, audio_len, delay, result_of, taken}

-- The state of a listener after `ret` bytes of the block, with any time for the next turn.
abbrev pub moved : Client → ℕ → ℕ → Client
moved c ret ms = record (advance c ret) {
  since_meta_block = c.since_meta_block + ret;
  schedule_ms = ms;
}

sent-InStep :
    (b : Block) (c : Client) (audio : Bytes) (r : Receiver) (res : Option ℕ) (n len ms : ℕ)
    → c.pos ≤ length b.bytes
    → InSync b c audio r
    → Between c audio r
    → len ≤ c.interval - c.since_meta_block
    → (let bytes = take len (drop c.pos b.bytes) in
        InStep b c audio r (record {
          client = moved c (min n (length bytes)) ms;
          result = res;
          wire = take n bytes;
        }))
sent-InStep b c audio r res n len ms h s p k =
    let bytes : Bytes = take len (drop c.pos b.bytes) in
    let ret : ℕ = min n (length bytes) in
    let short : length bytes ≤ len = omega (arith, length-take len (drop c.pos b.bytes)) in
    let within : c.pos + length bytes ≤ length b.bytes =
      omega (arith, length-take len (drop c.pos b.bytes), length-drop c.pos b.bytes) in
    let sent : length (take n bytes) ≡ ret = length-take n bytes in
    let same : take n bytes ≡ take (c.pos + ret - c.pos) (drop c.pos b.bytes) =
      take-take n len (drop c.pos b.bytes) ∙ ap (λ i. take i (drop c.pos b.bytes)) (omega arith) in
    record {
      pos_ge = omega arith;
      pos_le = omega arith;
      sync = record {
        since_le = omega (arith, s.since_le);
        positive = s.positive;
        plain = s.plain;
        phase = inl (record {
          not_in = p.not_in;
          offset = p.offset;
          state =
              ap (λ q. feed c.interval q (take n bytes)) p.state
              ∙ feed_audio c.interval (c.interval - c.since_meta_block) audio (take n bytes)
                  (omega arith)
              ∙ ap₂ at_audio (omega arith) (ap (λ l. audio ++ l) same);
        });
      };
    }

-- A write before the next metadata is due.
pub write_audio-InStep :
    (b : Block) (c : Client) (audio : Bytes) (r : Receiver) (accept : Option ℕ)
    → c.pos ≤ length b.bytes
    → InSync b c audio r
    → Between c audio r
    → (let bytes = take (audio_len c b) (drop c.pos b.bytes) in
        InStep b c audio r (record {
          client = after_audio c (audio_len c b) (result_of accept bytes);
          result = result_of accept bytes;
          wire = taken accept bytes;
        }))
write_audio-InStep b c audio r none h s p =
    same-InStep b c (record c { schedule_ms = c.schedule_ms + delay c none }) audio r none h s refl
      (put_off-InSync b c audio r _ s)
write_audio-InStep b c audio r (some n) h s p =
    sent-InStep b c audio r (some (min n (length (take (audio_len c b) (drop c.pos b.bytes))))) n
      (audio_len c b) _ h s p (audio_len_le c b s.positive)
  where
    audio_len_le :
        (c : Client) (b : Block) → 0 < c.interval → audio_len c b ≤ c.interval - c.since_meta_block
    audio_len_le c b h = ground arith
