-- ===== src/Mp3/Inserted.antt =====
-- src/format_mp3.c, lines 587 to 634: metadata, with bytes of the block behind it.
use mcaster1dnas.Mp3.Sync.{
  at_meta, IsFramed, InSync, InStep, at_audio, take-take, icy_of, put_off-InSync, same-InStep,
  nothing-taken,
}
use mcaster1dnas.Mp3.Receiver.{Receiver, feed, feed_meta, feed-append, feed_audio}
use mcaster1dnas.Base.{
  ℕ, Bytes, Option, [], ap, ap₂, arith, drop, inl, length, length-append, length-drop, length-take,
  min, refl, suc, sym, take, zero, ◌*◌, ◌++◌, ◌+◌, ◌-◌, ◌<◌, ◌∙◌, ◌∷◌, ◌≡◌, ◌≤◌, Bool, append-nil,
  false, if-cases, inr, leb, leb→le, ltb, none, some, subst, true, ◌||◌,
}
use mcaster1dnas.Mp3.{Client, Block, finish_meta, after_meta, delay, result_of, taken}

-- The receiver takes the bytes for metadata.
pub record Expects (interval : ℕ) (metadata audio : Bytes) (r : Receiver) : Type 0 where
  pub nonempty : 0 < length metadata
  pub prefix :
      (k : ℕ)
      → 0 < k
      → k ≤ length metadata
      → feed interval r (take k metadata) ≡ at_meta interval (length metadata - k) audio

pub framed-Expects :
    (interval : ℕ) (metadata audio : Bytes)
    → IsFramed metadata
    → Expects interval metadata audio (at_audio 0 audio)
unfolding feed
framed-Expects interval [] audio f = elim f [ ]
framed-Expects interval (x ∷ text) audio f = record {
  nonempty = omega arith;
  prefix = λ k pos le. start k pos le;
}
  where
    start :
        (k : ℕ)
        → 0 < k
        → k ≤ suc (length text)
        → feed interval (at_audio 0 audio) (take k (x ∷ text))
          ≡ at_meta interval (suc (length text) - k) audio
    start zero pos le = absurd (omega arith)
    start (suc k) pos le =
        feed_meta interval interval (x * 16) audio (take k text)
          (omega (arith, f, length-take k text))
        ∙ ap (λ n. at_meta interval n audio) (omega (arith, f, length-take k text))

pub rest-Expects :
    (interval left : ℕ) (metadata audio : Bytes)
    → 0 < length metadata
    → left ≡ length metadata
    → Expects interval metadata audio (at_meta interval left audio)
rest-Expects interval left metadata audio pos e = record {
  nonempty = pos;
  prefix = λ k p le.
      feed_meta interval interval left audio (take k metadata)
        (omega (arith, length-take k metadata))
      ∙ ap (λ n. at_meta interval n audio) (omega (arith, length-take k metadata));
}

take-append_long :
    (n : ℕ) (xs ys : Bytes) → length xs ≤ n → take n (xs ++ ys) ≡ xs ++ take (n - length xs) ys
take-append_long n [] ys h = ap (λ k. take k ys) (omega arith)
take-append_long zero (x ∷ xs) ys h = absurd (omega arith)
take-append_long (suc n) (x ∷ xs) ys h =
    ap (λ l. x ∷ l)
      (take-append_long n xs ys (omega arith) ∙ ap (λ k. xs ++ take k ys) (omega arith))

take-append_short : (n : ℕ) (xs ys : Bytes) → n ≤ length xs → take n (xs ++ ys) ≡ take n xs
take-append_short zero xs ys h = refl
take-append_short (suc n) [] ys h = absurd (omega arith)
take-append_short (suc n) (x ∷ xs) ys h = ap (λ l. x ∷ l) (take-append_short n xs ys (omega arith))

pub take_self : (xs : Bytes) → take (length xs) xs ≡ xs
take_self [] = refl
take_self (x ∷ xs) = ap (λ l. x ∷ l) (take_self xs)

module _ (b : Block) (c : Client) (audio metadata : Bytes) (r : Receiver) (number : ℕ)
    (unread : c.pos < length b.bytes) (s : InSync b c audio r)
    (due : c.since_meta_block ≡ c.interval) (e : Expects c.interval metadata audio r) where
  abbrev follow : Bytes
  follow = take c.interval (drop c.pos b.bytes)

  -- All of the metadata was sent, and bytes of the block.
  complete-InStep :
      (n ms : ℕ) (res : Option ℕ)
      → length metadata ≤ min n (length (metadata ++ follow))
      → InStep b c audio r (record {
        client =
            record (finish_meta c number (min n (length (metadata ++ follow)) - length metadata)) {
              schedule_ms = ms;
            };
        result = res;
        wire = take n (metadata ++ follow);
      })
  complete-InStep n ms res h =
      let q : ℕ = min n (length (metadata ++ follow)) - length metadata in
      let total : length (metadata ++ follow) ≡ length metadata + length follow =
        length-append metadata follow in
      let k : ℕ = n - length metadata in
      let q_is : q ≡ min k (length follow) = omega (arith, total) in
      let short : length follow ≤ c.interval =
        omega (arith, length-take c.interval (drop c.pos b.bytes)) in
      let within : c.pos + length follow ≤ length b.bytes =
        omega (arith, length-take c.interval (drop c.pos b.bytes), length-drop c.pos b.bytes) in
      let same : take k follow ≡ take (c.pos + q - c.pos) (drop c.pos b.bytes) =
        take-take k c.interval (drop c.pos b.bytes)
        ∙ ap (λ i. take i (drop c.pos b.bytes)) (omega (arith, q_is)) in
      record {
        pos_ge = omega arith;
        pos_le = omega (arith, q_is);
        sync = record {
          since_le = omega (arith, q_is);
          positive = s.positive;
          plain = s.plain;
          phase = inl (record {
            not_in = refl;
            offset = refl;
            state =
                ap (feed c.interval r) (take-append_long n metadata follow (omega arith))
                ∙ feed-append c.interval r metadata (take k follow)
                ∙ ap (λ x. feed c.interval x (take k follow))
                    (ap (feed c.interval r) (sym (take_self metadata))
                      ∙ e.prefix (length metadata) e.nonempty (omega arith)
                      ∙ ap (λ i. at_meta c.interval i audio) (omega arith))
                ∙ feed_audio c.interval c.interval audio (take k follow)
                    (omega (arith, length-take k follow))
                ∙ ap₂ at_audio (omega (arith, length-take k follow, q_is))
                    (ap (λ l. audio ++ l) same);
          });
        };
      }

  -- A part of it was sent.
  partial-InStep :
      (n ms : ℕ) (res : Option ℕ)
      → 0 < n
      → n < length metadata
      → length metadata + c.metadata_offset ≡ length (icy_of b)
      → InStep b c audio r (record {
        client = record c {
          in_metadata = true;
          metadata_offset = c.metadata_offset + n;
          schedule_ms = ms;
        };
        result = res;
        wire = take n (metadata ++ follow);
      })
  partial-InStep n ms res pos h whole =
      let none_read : take (c.pos - c.pos) (drop c.pos b.bytes) ≡ [] =
        nothing-taken (c.pos - c.pos) (drop c.pos b.bytes) (omega arith) in
      record {
        pos_ge = omega arith;
        pos_le = omega arith;
        sync = record {
          since_le = s.since_le;
          positive = s.positive;
          plain = s.plain;
          phase = inr (record {
            is_in = refl;
            due = due;
            begun = omega arith;
            more = omega arith;
            unread = unread;
            state =
                ap (feed c.interval r) (take-append_short n metadata follow (omega arith))
                ∙ e.prefix n pos (omega arith)
                ∙ ap₂ (at_meta c.interval) (omega arith)
                    (sym (append-nil audio) ∙ ap (λ l. audio ++ l) (sym none_read));
          });
        };
      }

  -- Nothing was sent.
  silent-InStep :
      (n ms : ℕ) (res : Option ℕ)
      → n ≡ 0
      → InStep b c audio r (record {
        client = record c { schedule_ms = ms };
        result = res;
        wire = take n (metadata ++ follow);
      })
  silent-InStep n ms res z =
      subst
        (λ w.
          InStep b c audio r
            (record { client = record c { schedule_ms = ms }; result = res; wire = w }))
        (sym (ap (λ k. take k (metadata ++ follow)) z))
        (same-InStep b c (record c { schedule_ms = ms }) audio r res (omega arith) s refl
          (put_off-InSync b c audio r ms s))

  short-InStep :
      (n ms : ℕ) (res : Option ℕ)
      → n < length metadata
      → (1 < length metadata → length metadata + c.metadata_offset ≡ length (icy_of b))
      → InStep b c audio r (record {
        client = record c {
          in_metadata = c.in_metadata || ltb 0 n;
          metadata_offset = c.metadata_offset + n;
          schedule_ms = ms;
        };
        result = res;
        wire = take n (metadata ++ follow);
      })
  short-InStep zero ms res h whole =
      let i : (c.in_metadata || ltb 0 0) ≡ c.in_metadata = or_false c.in_metadata in
      let o : c.metadata_offset + 0 ≡ c.metadata_offset = omega arith in
      subst
        (λ (x : Bool × ℕ). InStep b c audio r (record {
          client = record c { in_metadata = x.0; metadata_offset = x.1; schedule_ms = ms };
          result = res;
          wire = [];
        }))
        (ap₂ (λ (x : Bool) (y : ℕ). (x, y)) (sym i) (sym o)) (silent-InStep 0 ms res refl)
    where
      or_false : (x : Bool) → (x || false) ≡ x
      or_false true = refl
      or_false false = refl
  short-InStep (suc n) ms res h whole =
      let i : (c.in_metadata || ltb 0 (suc n)) ≡ true =
        or_true c.in_metadata (ltb 0 (suc n)) (ground arith) in
      subst
        (λ x. InStep b c audio r (record {
          client = record c {
            in_metadata = x;
            metadata_offset = c.metadata_offset + suc n;
            schedule_ms = ms;
          };
          result = res;
          wire = take (suc n) (metadata ++ follow);
        }))
        (sym i) (partial-InStep (suc n) ms res (omega arith) h (whole (omega arith)))
    where
      or_true : (x y : Bool) → y ≡ true → (x || y) ≡ true
      or_true true y e = refl
      or_true false y e = e

  -- What the socket takes of the metadata and the bytes behind it.
  pub after_meta-InStep :
      (accept : Option ℕ)
      → (1 < length metadata → length metadata + c.metadata_offset ≡ length (icy_of b))
      → InStep b c audio r (record {
        client =
            after_meta c number
              (length metadata)
              (length (metadata ++ follow))
              (result_of accept (metadata ++ follow));
        result = result_of accept (metadata ++ follow);
        wire = taken accept (metadata ++ follow);
      })
  after_meta-InStep none whole =
      same-InStep b c (record c { schedule_ms = c.schedule_ms + delay c none }) audio r none
        (omega arith) s refl (put_off-InSync b c audio r _ s)
  after_meta-InStep (some n) whole =
      let ret : ℕ = min n (length (metadata ++ follow)) in
      if-cases
        (λ x.
          InStep b c audio r
            (record { client = x; result = some ret; wire = take n (metadata ++ follow) }))
        (leb (length metadata) ret) _ _ (λ t. complete-InStep n _ (some ret) (leb→le _ _ t))
        (λ t.
          let lt : ret < length metadata = ground arith in
          let z : n ≡ ret = omega (arith, length-append metadata follow) in
          subst
            (λ k. InStep b c audio r (record {
              client = record c {
                in_metadata = c.in_metadata || ltb 0 k;
                metadata_offset = c.metadata_offset + k;
                schedule_ms = c.schedule_ms + (10 + c.throttle * 6);
              };
              result = some ret;
              wire = take n (metadata ++ follow);
            }))
            z
            (short-InStep n (c.schedule_ms + (10 + c.throttle * 6)) (some ret) (omega arith) whole))
