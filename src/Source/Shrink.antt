-- ===== src/Source/Shrink.antt =====
-- src/source.c, lines 814 to 847: the queue is reduced to what the listeners need.
use mcaster1dnas.Source.Blocks.{rest, rest-suc, drop-lt, drop-suc}
use mcaster1dnas.Source.Growth.{Holds, IsQueue, same_queue-Holds}
use mcaster1dnas.Base.{
  ℕ, Bool-cases, List, Option-cases, [], arith, drop, inl, inr, leb, length, refl, some, subst, suc,
  sym, zero, ◌+◌, ◌<◌, ◌∙◌, ◌∷◌, ◌≡◌, ◌==◌, ap, false, ◌≤◌, if-cases, ltb, ◌/◌, ◌||◌,
}
use mcaster1dnas.Source.{Block, Queue, drop_first, trim, trim_step, is_empty, shrink, shrink_target}

pub drop_first-Holds :
    (all : List Block) (q : Queue) (b : Block) (l : List Block)
    → Holds all q
    → q.stream_data ≡ b ∷ l
    → Holds all (drop_first q b l)
drop_first-Holds all q b l v e =
    let f : drop q.dropped all ≡ b ∷ l = sym v.blocks ∙ e in
    let n : rest all q.dropped ≡ b.len + rest all (suc q.dropped) = rest-suc all q.dropped b l f in
    let len : q.dropped + length l < length all = drop-lt q.dropped all b l f in
    record {
      dropped_le = omega arith;
      blocks = sym (drop-suc q.dropped all b l f);
      size = omega (arith, v.size, v.size_fits);
      size_fits = omega (arith, v.size_fits);
      point_ge = ground arith;
      point_le = ground arith;
      offset = elim (Bool-cases (q.min_queue_point == q.dropped)) [
        | inl t ↦
            let m : q.min_queue_point ≡ q.dropped = ground arith in
            let o : q.min_queue_offset ≡ rest all q.dropped = v.offset ∙ ap (rest all) m in
            rw t (omega (arith, v.size_fits))
        | inr t ↦ rw t v.offset
      ];
    }

module _ (P : Queue → Type 0) (target : ℕ)
    (keep : (q : Queue) (b c : Block) (l : List Block)
      → q.stream_data ≡ b ∷ c ∷ l
      → target < q.queue_size
      → P q
      → P (drop_first q b (c ∷ l))) where
  pub trim_step-keeps :
      (q q' : Queue) (l : List Block)
      → q.stream_data ≡ l
      → P q
      → trim_step target q l ≡ some q'
      → P q'
  unfolding trim_step
  trim_step-keeps q q' [] e p h = absurd (ground arith)
  trim_step-keeps q q' (b ∷ []) e p h = absurd (ground arith)
  trim_step-keeps q q' (b ∷ c ∷ l) e p h = elim (Bool-cases (leb q.queue_size target)) [
    | inl t ↦ absurd (ground arith)
    | inr t ↦ subst P (ground arith) (keep q b c l e (ground arith) p)
  ]

  trim-keeps : (loop : ℕ) (q : Queue) → P q → P (trim loop target q)
  unfolding trim
  trim-keeps zero q p = p
  trim-keeps (suc loop) q p = elim (Option-cases (trim_step target q q.stream_data)) [
    | inl e ↦ rw (e, trim) p
    | inr (q', e) ↦ rw (e, trim) (trim-keeps loop q' (trim_step-keeps q q' q.stream_data refl p e))
  ]

-- The reduction keeps the invariant of the queue.
pub trim-Holds :
    (all : List Block) (loop target : ℕ) (q : Queue) → Holds all q → Holds all (trim loop target q)
trim-Holds all loop target =
    trim-keeps (Holds all) target (λ q b c l e h v. drop_first-Holds all q b (c ∷ l) v e) loop

trim-queue_pos : (loop target : ℕ) (q : Queue) → (trim loop target q).queue_pos ≡ q.queue_pos
trim-queue_pos loop target q =
    trim-keeps (λ q'. q'.queue_pos ≡ q.queue_pos) target (λ q' b c l e h p. p) loop q refl

-- What stays of a queue is its end, and of a queue that is not empty one block at least.
trim-nonempty :
    (loop target : ℕ) (q : Queue)
    → is_empty q.stream_data ≡ false
    → is_empty (trim loop target q).stream_data ≡ false
trim-nonempty loop target =
    trim-keeps (λ q. is_empty q.stream_data ≡ false) target (λ q b c l e h p. refl) loop

stays-after :
    (all : List Block) (q : Queue) (k bound : ℕ)
    → Holds all q
    → bound < q.queue_size
    → rest all k ≤ bound
    → q.dropped ≤ k
    → suc q.dropped ≤ k
stays-after all q k bound v t h live = elim (Bool-cases (q.dropped == k)) [
  | inl e ↦
      let d : q.dropped ≡ k = ground arith in
      let s : q.queue_size ≡ rest all k = v.size ∙ ap (rest all) d in absurd (omega arith)
  | inr e ↦ ground arith
]

-- A listener that has `pos` bytes of the block `k` keeps it when the
-- rest is within the goal.
pub trim-block :
    (all : List Block) (loop goal k pos : ℕ) (q : Queue)
    → rest all k ≤ goal + pos
    → pos ≤ 8000
    → Holds all q
    → q.dropped ≤ k
    → (trim loop (goal + 8000) q).dropped ≤ k
trim-block all loop goal k pos q h p v live =
    (trim-keeps (λ q. Holds all q × (q.dropped ≤ k)) (goal + 8000)
      (λ q b c l e t w. (
        drop_first-Holds all q b (c ∷ l) w.0 e,
        stays-after all q k (goal + 8000) w.0 t (omega arith) w.1,
      ))
      loop q (v, live)).1

pub shrink-cases :
    (P : Queue → Type 0) (q : Queue) (time_ms : ℕ)
    → P q
    → P (
        trim
          (48 + q.incoming_rate / 8192)
          (shrink_target q)
          (record q { shrink_pos = 0; shrink_time = 0 }))
    → P (shrink q time_ms)
unfolding shrink
shrink-cases P q time_ms x y =
    if-cases P ((q.shrink_time == 0) || ltb time_ms q.shrink_time) q _ (λ t. x) (λ t. y)

pub shrink-IsQueue :
    (all : List Block) (q : Queue) (time_ms : ℕ) → IsQueue all q → IsQueue all (shrink q time_ms)
shrink-IsQueue all q time_ms v = shrink-cases (IsQueue all) q time_ms v (record {
  holds =
      trim-Holds all (48 + q.incoming_rate / 8192) (shrink_target q) _
        (same_queue-Holds all q _ v.holds refl refl refl refl refl);
  position = trim-queue_pos (48 + q.incoming_rate / 8192) (shrink_target q) _ ∙ v.position;
  position_fits = v.position_fits;
})
