-- ===== src/Mp3/Write.antt =====
-- src/format_mp3.c, lines 567 to 704: each write keeps a listener and its receiver in step.
use mcaster1dnas.Mp3.Audio.{write_audio-InStep}
use mcaster1dnas.Mp3.Inserted.{Expects, rest-Expects, framed-Expects, after_meta-InStep}
use mcaster1dnas.Mp3.Sync.{Within, IsFramed, InSync, icy_of, InStep, Between, at_audio, same-InStep}
use mcaster1dnas.Mp3.Receiver.{Receiver}
use mcaster1dnas.Base.{
  ℕ, Bool-cases, Bytes, Option, [], ap, arith, drop, false, inl, inr, leb, length, length-drop,
  refl, some, subst, sym, ◌+◌, ◌-◌, ◌<◌, ◌∙◌, ◌∷◌, ◌≡◌, ltb, not, ◌&&◌, ◌==◌, if-cases, none,
}
use mcaster1dnas.Mp3.{
  Client, Block, is_number, meta_bytes, meta_of, send_icy_metadata, audio_len, write_buf_to_client,
}

-- The metadata that is due, by what was sent of it.
record Due (b : Block) (c : Client) (audio : Bytes) (r : Receiver) : Type 0 where
  metadata : Bytes
  chosen : meta_bytes c (meta_of b.attached) ≡ some metadata
  expects : Expects c.interval metadata audio r
  whole : 1 < length metadata → length metadata + c.metadata_offset ≡ length (icy_of b)

chunk-Due :
    (b : Block) (c : Client) (audio : Bytes) (r : Receiver)
    → IsFramed (icy_of b)
    → c.since_meta_block ≡ c.interval
    → Between c audio r
    → Due b c audio r
chunk-Due b c audio r f due p =
    let z : r ≡ at_audio 0 audio = p.state ∙ ap (λ n. at_audio n audio) (omega (arith, due)) in
    elim (Bool-cases (is_number c.associated (meta_of b.attached).0)) [
      | inl t ↦ record {
        metadata = 0 ∷ [];
        chosen = rw (t, p.not_in) refl;
        expects =
            subst (Expects c.interval (0 ∷ []) audio) (sym z)
              (framed-Expects c.interval (0 ∷ []) audio refl);
        whole = λ h. absurd (omega arith);
      }
      | inr t ↦ record {
        metadata = icy_of b;
        chosen = rw (t, p.not_in, p.offset) refl;
        expects =
            subst (Expects c.interval (icy_of b) audio) (sym z)
              (framed-Expects c.interval (icy_of b) audio f);
        whole = λ h. omega (arith, p.offset);
      }
    ]

unfilled-Due :
    (b : Block) (c : Client) (audio : Bytes) (r : Receiver) → Within b c audio r → Due b c audio r
unfilled-Due b c audio r p =
    let left : Bytes = drop c.metadata_offset (icy_of b) in
    let n : length left ≡ length (icy_of b) - c.metadata_offset =
      length-drop c.metadata_offset (icy_of b) in
    let was_sent : (is_number c.associated (meta_of b.attached).0 && not c.in_metadata) ≡ false =
      ground (arith, p.is_in) in
    let gt_now : (c.in_metadata && leb (length (icy_of b)) c.metadata_offset) ≡ false =
      ground (arith, p.more, p.is_in) in
    record {
      metadata = left;
      chosen = rw (was_sent, gt_now) refl;
      expects = subst (Expects c.interval left audio) (sym p.state) (
          rest-Expects c.interval (length (icy_of b) - c.metadata_offset) left audio
            (omega (arith, n, p.more)) (sym n));
      whole = λ h. omega (arith, n, p.more);
    }

send-InStep :
    (b : Block) (c : Client) (audio : Bytes) (r : Receiver) (accept : Option ℕ)
    → c.pos < length b.bytes
    → InSync b c audio r
    → c.since_meta_block ≡ c.interval
    → Due b c audio r
    → InStep b c audio r (send_icy_metadata c b accept)
unfolding send_icy_metadata
send-InStep b c audio r accept h s due d =
    rw (d.chosen, send_icy_metadata)
      (after_meta-InStep b c audio d.metadata r (meta_of b.attached).0 h s due d.expects accept
        d.whole)

-- Where metadata says its own length: whatever the socket takes at a write, the receiver gets the
-- bytes by which the position went on, in order and nothing else, and the metadata stands where the
-- receiver looks for it.
pub write_buf_to_client-InStep :
    (chunk_size : ℕ → ℕ) (b : Block) (c : Client) (audio : Bytes) (r : Receiver) (accept : Option ℕ)
    → IsFramed (icy_of b)
    → c.pos < length b.bytes
    → InSync b c audio r
    → InStep b c audio r (write_buf_to_client chunk_size c b accept)
unfolding write_buf_to_client
write_buf_to_client-InStep chunk_size b c audio r accept f h s =
    if-cases (InStep b c audio r) (ltb 0 c.interval && (c.interval == c.since_meta_block)) _ _
      (λ t.
        let due : c.since_meta_block ≡ c.interval = ground arith in
        send-InStep b c audio r accept h s due (elim s.phase [
          | inl p ↦ chunk-Due b c audio r f due p
          | inr p ↦ unfilled-Due b c audio r p
        ]))
      (λ t.
        if-cases (InStep b c audio r) (audio_len c b == 0) _ _
          (λ u. same-InStep b c c audio r none (omega arith) s refl s)
          (λ u.
            if-cases (InStep b c audio r) c.chunked _ _ (λ w. absurd (ground (arith, s.plain)))
              (λ w. elim s.phase [
                | inl p ↦ write_audio-InStep b c audio r accept (omega arith) s p
                | inr p ↦ absurd (ground (arith, p.due, s.positive))
              ])))
