-- ===== src/Mp3/Sync.antt =====
-- src/format_mp3.c, lines 567 to 704: a listener and a receiver at the other end.
use mcaster1dnas.Mp3.Receiver.{feed, Receiver}
use mcaster1dnas.Base.{
  ℕ, Bytes, Option, [], ap, append-nil, arith, drop, false, inl, inr, length, min, refl, subst, suc,
  sym, take, true, zero, ◌*◌, ◌++◌, ◌-◌, ◌<◌, ◌∙◌, ◌∷◌, ◌≡◌, ◌≤◌, ◌⊎◌,
}
use mcaster1dnas.Mp3.{Client, Block, Written, meta_of}

-- Metadata that says its length.
abbrev pub IsFramed : Bytes → Type 0
IsFramed [] = ⊥
IsFramed (n ∷ text) = length text ≡ n * 16

-- The metadata bytes of a block.
abbrev pub icy_of : Block → Bytes
icy_of b = (meta_of b.attached).1

abbrev pub at_audio : ℕ → Bytes → Receiver
at_audio left audio = record { audio_left = left; meta_left = 0; audio = audio }

abbrev pub at_meta : ℕ → ℕ → Bytes → Receiver
at_meta interval left audio = record { audio_left = interval; meta_left = left; audio = audio }

-- No metadata is under way.
pub record Between (c : Client) (audio : Bytes) (r : Receiver) : Type 0 where
  pub not_in : c.in_metadata ≡ false
  pub offset : c.metadata_offset ≡ 0
  pub state : r ≡ at_audio (c.interval - c.since_meta_block) audio

-- A part of the metadata was sent.
pub record Within (b : Block) (c : Client) (audio : Bytes) (r : Receiver) : Type 0 where
  pub is_in : c.in_metadata ≡ true
  pub due : c.since_meta_block ≡ c.interval
  pub begun : 0 < c.metadata_offset
  pub more : c.metadata_offset < length (icy_of b)
  pub unread : c.pos < length b.bytes
  pub state : r ≡ at_meta c.interval (length (icy_of b) - c.metadata_offset) audio

-- The receiver has got `audio` of the stream and waits for what the listener's state says.
pub record InSync (b : Block) (c : Client) (audio : Bytes) (r : Receiver) : Type 0 where
  pub since_le : c.since_meta_block ≤ c.interval
  pub positive : 0 < c.interval
  pub plain : c.chunked ≡ false
  pub phase : Between c audio r ⊎ Within b c audio r

-- A write kept the two in step: the receiver got the bytes that the position went on by.
pub record InStep (b : Block) (c : Client) (audio : Bytes) (r : Receiver) (w : Written)
    : Type 0 where
  pub pos_ge : c.pos ≤ w.client.pos
  pub pos_le : w.client.pos ≤ length b.bytes
  pub sync :
      InSync b w.client
        (audio ++ take (w.client.pos - c.pos) (drop c.pos b.bytes))
        (feed c.interval r w.wire)

pub take-take : (n k : ℕ) (xs : Bytes) → take n (take k xs) ≡ take (min n (length (take k xs))) xs
take-take zero k xs = let e : min 0 (length (take k xs)) ≡ 0 = omega arith in rw e refl
take-take (suc n) zero xs = let e : min (suc n) 0 ≡ 0 = omega arith in rw e refl
take-take (suc n) (suc k) [] = let e : min (suc n) 0 ≡ 0 = omega arith in rw e refl
take-take (suc n) (suc k) (x ∷ xs) =
    let e : min (suc n) (suc (length (take k xs))) ≡ suc (min n (length (take k xs))) =
      omega arith in
    rw e (ap (λ l. x ∷ l) (take-take n k xs))

pub nothing-taken : (n : ℕ) (xs : Bytes) → n ≡ 0 → take n xs ≡ []
nothing-taken n xs e = rw e refl

-- The state after a failed write, or another change that the receiver does not see.
pub same-InStep :
    (b : Block) (c c' : Client) (audio : Bytes) (r : Receiver) (res : Option ℕ)
    → c.pos ≤ length b.bytes
    → InSync b c audio r
    → c'.pos ≡ c.pos
    → InSync b c' audio r
    → InStep b c audio r (record { client = c'; result = res; wire = [] })
unfolding feed
same-InStep b c c' audio r res h s e t = record {
  pos_ge = omega arith;
  pos_le = omega arith;
  sync =
      subst (λ l. InSync b c' l r)
        (sym (append-nil audio)
          ∙ ap (λ l. audio ++ l)
              (sym (nothing-taken (c'.pos - c.pos) (drop c.pos b.bytes) (omega arith))))
        t;
}

-- A later time for the next turn.
pub put_off-InSync :
    (b : Block) (c : Client) (audio : Bytes) (r : Receiver) (ms : ℕ)
    → InSync b c audio r
    → InSync b (record c { schedule_ms = ms }) audio r
put_off-InSync b c audio r ms s = record {
  since_le = s.since_le;
  positive = s.positive;
  plain = s.plain;
  phase = elim s.phase [
    | inl p ↦ inl (record { not_in = p.not_in; offset = p.offset; state = p.state })
    | inr p ↦ inr (record {
      is_in = p.is_in;
      due = p.due;
      begun = p.begun;
      more = p.more;
      unread = p.unread;
      state = p.state;
    })
  ];
}
