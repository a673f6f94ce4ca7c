-- ===== src/Source/Bounds.antt =====
-- src/source.c: the sizes after an update, the length of a reduction, and an emptied queue.
use mcaster1dnas.Source.Blocks.{rest, rest-end, drop-all}
use mcaster1dnas.Source.Growth.{IsQueue, Holds}
use mcaster1dnas.Source.Shrink.{drop_first-Holds, trim_step-keeps}
use mcaster1dnas.Source.Sizes.{
  source_init, Settings, update_sizes, check_burst, check_min, check_sizes, settle, set_sizes,
  convert_qvalue,
}
use mcaster1dnas.Base.{
  Bool-cases, refl, subst, ℕ, List, Option-cases, [], ap, arith, if-cases, inl, inr, length,
  length-drop, ltb, none, some, suc, sym, zero, ◌%◌, ◌*◌, ◌+◌, ◌<◌, ◌==◌, ◌∷◌, ◌≡◌, ◌≤◌, ◌⊎◌,
}
use mcaster1dnas.Source.{Block, Queue, clear_source, trim, trim_step}

-- Sizes that fit each other.
pub record Fit (q : Queue) (rate : ℕ) : Type 0 where
  pub burst_le : q.default_burst_size ≤ 50000000
  pub min_ge : q.default_burst_size ≤ q.min_queue_size
  pub min_le : q.min_queue_size ≤ 50000000
  pub limit_ge : q.min_queue_size + rate * 4 ≤ q.queue_size_limit

settle-Fit :
    (q : Queue) (s : Settings) (rate burst limit least : ℕ)
    → burst ≤ least
    → least ≤ 50000000
    → rate < 1000000000
    → Fit (settle q s burst limit least (least + rate * 4)).0 rate
settle-Fit q s rate burst limit least h k m =
    if-cases (λ (r : Queue × Settings). Fit r.0 rate) (ltb limit (least + rate * 4))
      (
        set_sizes q burst ((least + rate * 4) % 4294967296) least,
        record s { queue_len = (least + rate * 4) % 4294967296 },
      )
      (set_sizes q burst limit least, s)
      (λ t. record { burst_le = omega arith; min_ge = h; min_le = k; limit_ge = omega arith })
      (λ t. record { burst_le = omega arith; min_ge = h; min_le = k; limit_ge = ground arith })

check_min-bounds :
    (burst n : ℕ) → burst ≤ 50000000 → (burst ≤ check_min burst n) × (check_min burst n ≤ 50000000)
check_min-bounds burst n h = (ground arith, ground arith)

check_burst-bound : (n : ℕ) → check_burst n ≤ 50000000
check_burst-bound n = ground arith

-- Whatever is configured, in bytes or seconds: after an update for a rate below 1000000000 the
-- burst is at most 50000000, the least queue holds the burst and no more than that as well, and the
-- limit leaves room for the least queue and four seconds of the stream. For the rate 0, which sets
-- nothing, this is so where the sizes fitted before.
pub update_sizes-Fit :
    (round : ℕ → ℕ) (q : Queue) (s : Settings) (rate : ℕ)
    → rate < 1000000000
    → (0 < rate) ⊎ Fit q 0
    → Fit (update_sizes round q s rate).0 rate
unfolding update_sizes
update_sizes-Fit round q s rate k h =
    if-cases (λ (r : Queue × Settings). Fit r.0 rate) (rate == 0) (q, s)
      (check_sizes q s rate (convert_qvalue q s.burst) (round (convert_qvalue q s.queue_len))
        (convert_qvalue q s.min_queue_len))
      (λ t. elim h [
        | inl pos ↦ absurd (ground arith)
        | inr f ↦ let z : 0 ≡ rate = ground arith in subst (Fit q) z f
      ])
      (λ t.
        let b =
          check_min-bounds (check_burst (convert_qvalue q s.burst))
            (convert_qvalue q s.min_queue_len) (check_burst-bound (convert_qvalue q s.burst)) in
        settle-Fit q s rate _ _ _ b.0 b.1 k)

-- The sizes that a source starts with fit each other.
pub source_init-Fit : (q : Queue) → Fit (source_init q) 0
unfolding source_init
source_init-Fit q = record {
  burst_le = omega arith;
  min_ge = omega arith;
  min_le = omega arith;
  limit_ge = omega arith;
}

-- One block at most, or nothing.
abbrev pub AtMostOne : List Block → Type 0
AtMostOne l = length l ≤ 1

trim_step-none :
    (target : ℕ) (q : Queue) (l : List Block)
    → trim_step target q l ≡ none
    → (q.queue_size ≤ target) ⊎ AtMostOne l
unfolding trim_step
trim_step-none target q [] h = inr (omega arith)
trim_step-none target q (b ∷ []) h = inr (omega arith)
trim_step-none target q (b ∷ c ∷ l) h = inl (ground arith)

-- A turn of the reduction releases the first block, of a queue that is larger than the target.
trim_step-some :
    (all : List Block) (target : ℕ) (q q' : Queue) (l : List Block)
    → q.stream_data ≡ l
    → Holds all q
    → trim_step target q l ≡ some q'
    → (q'.dropped ≡ suc q.dropped) × (target < rest all q.dropped)
unfolding trim_step
trim_step-some all target q q' [] d v h = absurd (ground arith)
trim_step-some all target q q' (b ∷ []) d v h = absurd (ground arith)
trim_step-some all target q q' (b ∷ c ∷ l) d v h =
    let n : target < q.queue_size = ground arith in (ground arith, omega (arith, v.size, n))

-- What a reduction of `q`, which releases `loop` blocks at most, makes of it.
pub record Trimmed (all : List Block) (loop target : ℕ) (q g : Queue) : Type 0 where
  pub holds : Holds all g
  pub dropped_ge : q.dropped ≤ g.dropped
  pub dropped_le : g.dropped ≤ q.dropped + loop
  pub needed : (i : ℕ) → q.dropped ≤ i → i < g.dropped → target < rest all i
  pub ends :
      (rest all g.dropped ≤ target) ⊎ AtMostOne g.stream_data ⊎ (g.dropped ≡ q.dropped + loop)

trim-none :
    (all : List Block) (loop target : ℕ) (q : Queue)
    → Holds all q
    → (q.queue_size ≤ target) ⊎ AtMostOne q.stream_data
    → Trimmed all loop target q q
trim-none all loop target q v e = record {
  holds = v;
  dropped_ge = omega arith;
  dropped_le = omega arith;
  needed = λ i h k. absurd (omega arith);
  ends = elim e [ inl h ↦ inl (omega (arith, v.size, h)) | inr h ↦ inr (inl h) ];
}

trim-some :
    (all : List Block) (loop target : ℕ) (q q' g : Queue)
    → (q'.dropped ≡ suc q.dropped) × (target < rest all q.dropped)
    → Trimmed all loop target q' g
    → Trimmed all (suc loop) target q g
trim-some all loop target q q' g (d, n) t = record {
  holds = t.holds;
  dropped_ge = omega (arith, t.dropped_ge);
  dropped_le = omega (arith, t.dropped_le);
  needed = λ i h k. elim (Bool-cases (q.dropped == i)) [
    | inl e ↦ let z : q.dropped ≡ i = ground arith in subst (λ j. target < rest all j) z n
    | inr e ↦ t.needed i (ground arith) k
  ];
  ends = elim t.ends [
    | inl h ↦ inl h
    | inr (inl h) ↦ inr (inl h)
    | inr (inr h) ↦ inr (inr (omega arith))
  ];
}

-- A reduction of a queue leaves a queue in order, without its first blocks. Each of them was
-- released while more than the target was on the queue, and it ends with the target reached, with
-- one block at most on the queue, or after as many blocks as it may release at once.
pub trim_ends :
    (all : List Block) (loop target : ℕ) (q : Queue)
    → Holds all q
    → Trimmed all loop target q (trim loop target q)
unfolding trim
trim_ends all zero target q v = record {
  holds = v;
  dropped_ge = omega arith;
  dropped_le = omega arith;
  needed = λ i h k. absurd (omega arith);
  ends = inr (inr (omega arith));
}
trim_ends all (suc loop) target q v = elim (Option-cases (trim_step target q q.stream_data)) [
  | inl e ↦
      rw (e, trim) (trim-none all (suc loop) target q v (trim_step-none target q q.stream_data e))
  | inr (q', e) ↦
      let v' : Holds all q' =
        trim_step-keeps (Holds all) target (λ p b c l f h w. drop_first-Holds all p b (c ∷ l) w f) q
          q' q.stream_data refl v e in
      rw (e, trim)
        (trim-some all loop target q q' (trim loop target q')
          (trim_step-some all target q q' q.stream_data refl v e) (trim_ends all loop target q' v'))
]

-- When a source is cleared every block that was queued is released, and the queue is empty.
pub clear_source-IsQueue :
    (all : List Block) (q : Queue)
    → IsQueue all q
    → IsQueue all (clear_source q) × ((clear_source q).dropped ≡ length all)
unfolding clear_source
clear_source-IsQueue all q v =
    let n : q.dropped + length q.stream_data ≡ length all =
      omega (arith, ap length v.holds.blocks, length-drop q.dropped all, v.holds.dropped_le) in
    let z : rest all (q.dropped + length q.stream_data) ≡ 0 = rest-end all _ (omega arith) in
    (
      record {
        holds = record {
          dropped_le = omega arith;
          blocks = sym (drop-all (q.dropped + length q.stream_data) all (omega arith));
          size = sym z;
          size_fits = omega arith;
          point_ge = omega arith;
          point_le = omega arith;
          offset = sym z;
        };
        position = v.position;
        position_fits = v.position_fits;
      },
      n,
    )
