-- ===== src/Mp3/Delivered.antt =====
-- src/format_mp3.c: a listener with metadata and its receiver, over any number of blocks and writes.
use mcaster1dnas.Mp3.Inserted.{take_self}
use mcaster1dnas.Mp3.Write.{write_buf_to_client-InStep}
use mcaster1dnas.Mp3.Sync.{at_audio, InSync, IsFramed, icy_of}
use mcaster1dnas.Mp3.Receiver.{Receiver, feed}
use mcaster1dnas.Base.{
  ℕ, Bytes, Option, [], ap, append-nil, append_assoc, ap₂, arith, drop, false, inl, inr, length,
  refl, subst, suc, sym, take, zero, ◌++◌, ◌-◌, ◌<◌, ◌∙◌, ◌∷◌, ◌≡◌, ◌≤◌,
}
use mcaster1dnas.Mp3.{Client, Block, write_buf_to_client}

-- The bytes of the blocks before, the block in hand, the listener and the receiver.
pub data Delivering (chunk_size : ℕ → ℕ) : Bytes → Block → Client → Receiver → Type 0 where
  started :
      (b : Block) (c : Client)
      → 0 < c.interval
      → c.chunked ≡ false
      → c.in_metadata ≡ false
      → c.metadata_offset ≡ 0
      → c.since_meta_block ≡ 0
      → c.pos ≡ 0
      → Delivering chunk_size [] b c (at_audio c.interval [])
  wrote :
      {before : Bytes} {b : Block} {c : Client} {r : Receiver} (accept : Option ℕ)
      → Delivering chunk_size before b c r
      → IsFramed (icy_of b)
      → c.pos < length b.bytes
      → Delivering chunk_size before b
          (write_buf_to_client chunk_size c b accept).client
          (feed c.interval r (write_buf_to_client chunk_size c b accept).wire)
  advanced :
      {before : Bytes} {b : Block} {c : Client} {r : Receiver} (n : Block)
      → Delivering chunk_size before b c r
      → c.pos ≡ length b.bytes
      → Delivering chunk_size (before ++ b.bytes) n (record c { pos = 0 }) r

-- What holds on the way.
record Served (before : Bytes) (b : Block) (c : Client) (r : Receiver) : Type 0 where
  pos_le : c.pos ≤ length b.bytes
  sync : InSync b c (before ++ take c.pos b.bytes) r

take-split : (n k : ℕ) (xs : Bytes) → n ≤ k → take n xs ++ take (k - n) (drop n xs) ≡ take k xs
take-split zero k xs h = ap (λ i. take i xs) (omega arith)
take-split (suc n) zero xs h = absurd (omega arith)
take-split (suc n) (suc k) [] h = nothing-left (suc k - suc n)
  where
    nothing-left : (i : ℕ) → take {A = ℕ} i [] ≡ []
    nothing-left zero = refl
    nothing-left (suc i) = refl
take-split (suc n) (suc k) (x ∷ xs) h =
    ap (λ l. x ∷ l)
      (ap (λ i. take n xs ++ take i (drop n xs)) (omega arith) ∙ take-split n k xs (omega arith))

next-InSync :
    (before : Bytes) (b n : Block) (c : Client) (r : Receiver)
    → Served before b c r
    → c.pos ≡ length b.bytes
    → InSync n (record c { pos = 0 }) ((before ++ b.bytes) ++ []) r
next-InSync before b n c r s e =
    let whole : before ++ take c.pos b.bytes ≡ (before ++ b.bytes) ++ [] =
      ap (λ k. before ++ take k b.bytes) e
      ∙ ap (λ l. before ++ l) (take_self b.bytes)
      ∙ sym (append-nil (before ++ b.bytes)) in
    record {
      since_le = s.sync.since_le;
      positive = s.sync.positive;
      plain = s.sync.plain;
      phase = elim s.sync.phase [
        | inl p ↦ inl (record {
          not_in = p.not_in;
          offset = p.offset;
          state = p.state ∙ ap (at_audio (c.interval - c.since_meta_block)) whole;
        })
        | inr p ↦ absurd (ground (arith, p.unread))
      ];
    }

Delivering-Served :
    (chunk_size : ℕ → ℕ) {before : Bytes} {b : Block} {c : Client} {r : Receiver}
    → Delivering chunk_size before b c r
    → Served before b c r
Delivering-Served chunk_size (started b c pos plain out off since at) = record {
  pos_le = omega (arith, at);
  sync = record {
    since_le = omega arith;
    positive = pos;
    plain = plain;
    phase = inl (record {
      not_in = out;
      offset = off;
      state = ap₂ at_audio (omega arith) (ap (λ k. take k b.bytes) (sym at));
    });
  };
}
Delivering-Served chunk_size (wrote {before} {b} {c} {r} accept d f h) =
    let s = Delivering-Served chunk_size d in
    let w =
      write_buf_to_client-InStep chunk_size b c (before ++ take c.pos b.bytes) r accept f h
        s.sync in
    let w' : Client = (write_buf_to_client chunk_size c b accept).client in
    record {
      pos_le = w.pos_le;
      sync =
          subst
            (λ l.
              InSync b w' l (feed c.interval r (write_buf_to_client chunk_size c b accept).wire))
            (append_assoc before (take c.pos b.bytes) (take (w'.pos - c.pos) (drop c.pos b.bytes))
              ∙ ap (λ l. before ++ l) (take-split c.pos w'.pos b.bytes w.pos_ge))
            w.sync;
    }
Delivering-Served chunk_size (advanced {before} {b} {c} {r} n d e) = record {
  pos_le = omega arith;
  sync = next-InSync before b n c r (Delivering-Served chunk_size d) e;
}

phase-audio :
    (b : Block) (c : Client) (audio : Bytes) (r : Receiver) → InSync b c audio r → r.audio ≡ audio
phase-audio b c audio r s = elim s.phase [
  | inl p ↦ ap (λ (x : Receiver). x.audio) p.state
  | inr p ↦ ap (λ (x : Receiver). x.audio) p.state
]

-- However the socket takes the bytes and however metadata changes from block to block, as long as
-- it says its own length: a receiver that takes metadata after every `interval` bytes has got the
-- bytes of the blocks before and those of the block in hand up to the position, and no others.
pub Delivering-audio :
    (chunk_size : ℕ → ℕ) (before : Bytes) (b : Block) (c : Client) (r : Receiver)
    → Delivering chunk_size before b c r
    → r.audio ≡ before ++ take c.pos b.bytes
Delivering-audio chunk_size before b c r d =
    phase-audio b c (before ++ take c.pos b.bytes) r (Delivering-Served chunk_size d).sync
