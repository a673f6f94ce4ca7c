-- ===== src/Source/Growth.antt =====
-- The invariant of the queue, and that a new block keeps it.
use mcaster1dnas.Base.{
  ℕ, List, [], ap, arith, drop, if-cases, length, length-append, length-drop, refl, sym, true, ◌%◌,
  ◌&&◌, ◌++◌, ◌+◌, ◌<◌, ◌==◌, ◌∙◌, ◌∷◌, ◌≡◌, ◌≤◌, ◌-◌,
}
use mcaster1dnas.Source.{
  Block, Queue, add_queue_buffer, is_empty, link_block, renew_rate, start_queue, start_shrink,
  sub64, take_buffer, from,
}
use mcaster1dnas.Source.Blocks.{
  total, drop-append, rest, rest-append, rest-end, rest_le, total-append, drop-drop,
}

-- The queue holds the last blocks of `all` that were ever queued, and it knows their size and the
-- size from the starting point for new listeners on.
pub record Holds (all : List Block) (q : Queue) : Type 0 where
  pub dropped_le : q.dropped ≤ length all
  pub blocks : q.stream_data ≡ drop q.dropped all
  pub size : q.queue_size ≡ rest all q.dropped
  pub size_fits : rest all q.dropped < 4294967296
  pub point_ge : q.dropped ≤ q.min_queue_point
  pub point_le : q.min_queue_point ≤ length all
  pub offset : q.min_queue_offset ≡ rest all q.min_queue_point

-- The position of the source counts the bytes of all blocks as well.
pub record IsQueue (all : List Block) (q : Queue) : Type 0 where
  pub holds : Holds all q
  pub position : q.queue_pos ≡ total all
  pub position_fits : total all < 18446744073709551616

pub from-drop :
    (all : List Block) (q : Queue) (k : ℕ) → Holds all q → q.dropped ≤ k → from q k ≡ drop k all
from-drop all q k v h =
    let e : q.dropped + (k - q.dropped) ≡ k = omega arith in
    rw (v.blocks, drop-drop q.dropped (k - q.dropped) all, e) refl

is_empty→nil : (l : List Block) → is_empty l ≡ true → l ≡ []
is_empty→nil [] h = refl
is_empty→nil (b ∷ l) h = absurd (ground arith)

length-nil : (l : List Block) → l ≡ [] → length l ≡ 0
length-nil l h = rw h refl

empty→end :
    (all : List Block) (q : Queue)
    → Holds all q
    → is_empty q.stream_data ≡ true
    → length all ≤ q.dropped
empty→end all q v e = omega (
  arith,
  length-drop q.dropped all,
  length-nil (drop q.dropped all) (sym v.blocks ∙ is_empty→nil q.stream_data e),
)

start_queue-Holds : (all : List Block) (q : Queue) → Holds all q → Holds all (start_queue q)
start_queue-Holds all q v =
    if-cases (Holds all) (is_empty q.stream_data)
      (record q { min_queue_point = q.dropped; min_queue_offset = 0 }) q
      (λ e. record {
        dropped_le = v.dropped_le;
        blocks = v.blocks;
        size = v.size;
        size_fits = v.size_fits;
        point_ge = omega arith;
        point_le = v.dropped_le;
        offset = sym (rest-end all q.dropped (empty→end all q v e));
      })
      (λ e. v)

link_block-Holds :
    (all : List Block) (q : Queue) (r : Block)
    → Holds all q
    → rest all q.dropped + r.len < 4294967296
    → Holds (all ++ (r ∷ [])) (link_block q r)
link_block-Holds all q r v h = record {
  dropped_le = omega (arith, v.dropped_le, length-append all (r ∷ []));
  blocks = ap (λ l. l ++ (r ∷ [])) v.blocks ∙ sym (drop-append q.dropped all (r ∷ []) v.dropped_le);
  size = omega (arith, v.size, rest-append all q.dropped r v.dropped_le);
  size_fits = omega (arith, rest-append all q.dropped r v.dropped_le);
  point_ge = v.point_ge;
  point_le = omega (arith, v.point_le, length-append all (r ∷ []));
  offset = omega (
    arith,
    v.offset,
    rest-append all q.min_queue_point r v.point_le,
    rest_le all q.dropped q.min_queue_point v.point_ge,
  );
}

-- States that agree in what the invariant speaks of.
pub same_queue-Holds :
    (all : List Block) (q q' : Queue)
    → Holds all q
    → q'.dropped ≡ q.dropped
    → q'.stream_data ≡ q.stream_data
    → q'.queue_size ≡ q.queue_size
    → q'.min_queue_point ≡ q.min_queue_point
    → q'.min_queue_offset ≡ q.min_queue_offset
    → Holds all q'
same_queue-Holds all q q' v d b s p o = record {
  dropped_le = rw d v.dropped_le;
  blocks = rw (d, b) v.blocks;
  size = rw (d, s) v.size;
  size_fits = rw d v.size_fits;
  point_ge = rw (d, p) v.point_ge;
  point_le = rw p v.point_le;
  offset = rw (p, o) v.offset;
}

-- What the last two assignments of `source_add_queue_buffer` set is not part of the invariant.
renew_rate-Holds :
    (all : List Block) (q : Queue) (rate : ℕ) → Holds all q → Holds all (renew_rate q rate)
renew_rate-Holds all q rate v =
    if-cases (Holds all) (q.buffer_count % 4 == 3) (record q { incoming_rate = rate }) q
      (λ e. same_queue-Holds all q _ v refl refl refl refl refl) (λ e. v)

start_shrink-Holds :
    (all : List Block) (q : Queue) (time_ms : ℕ) → Holds all q → Holds all (start_shrink q time_ms)
start_shrink-Holds all q time_ms v =
    if-cases (Holds all) ((q.shrink_time == 0) && (q.buffer_count % 32 == 31))
      (record q { shrink_pos = sub64 q.queue_pos q.min_queue_offset; shrink_time = time_ms + 600 })
      q (λ e. same_queue-Holds all q _ v refl refl refl refl refl) (λ e. v)

add_queue_buffer-queue_pos :
    (q : Queue) (r : Block) (rate time_ms : ℕ)
    → (add_queue_buffer q r rate time_ms).queue_pos ≡ q.queue_pos
unfolding add_queue_buffer
add_queue_buffer-queue_pos q r rate time_ms = ground arith

take_buffer-queue_pos :
    (q : Queue) (r : Block)
    → (take_buffer q r).queue_pos ≡ (q.queue_pos + r.len) % 18446744073709551616
unfolding take_buffer
take_buffer-queue_pos q r = refl

add_take-queue_pos :
    (all : List Block) (q : Queue) (r : Block) (rate time_ms : ℕ)
    → q.queue_pos ≡ total all
    → total all + r.len < 18446744073709551616
    → (add_queue_buffer (take_buffer q r) r rate time_ms).queue_pos ≡ total (all ++ (r ∷ []))
add_take-queue_pos all q r rate time_ms p k = omega (
  arith,
  p,
  add_queue_buffer-queue_pos (take_buffer q r) r rate time_ms,
  take_buffer-queue_pos q r,
  total-append all (r ∷ []),
)

start_queue-dropped : (q : Queue) → (start_queue q).dropped ≡ q.dropped
start_queue-dropped q = ground arith

-- A block that a source sends is queued behind the others: the queue then holds it too, and the
-- sizes, the starting point and the position are right again, if the sizes fit their types.
pub add_queue_buffer-IsQueue :
    (all : List Block) (q : Queue) (r : Block) (rate time_ms : ℕ)
    → IsQueue all q
    → rest all q.dropped + r.len < 4294967296
    → total all + r.len < 18446744073709551616
    → IsQueue (all ++ (r ∷ [])) (add_queue_buffer (take_buffer q r) r rate time_ms)
unfolding add_queue_buffer take_buffer
add_queue_buffer-IsQueue all q r rate time_ms v h k = record {
  holds = start_shrink-Holds _ _ time_ms (
      renew_rate-Holds _ _ rate (
        link_block-Holds all (start_queue (take_buffer q r)) r
          (start_queue-Holds all (take_buffer q r)
            (same_queue-Holds all q (take_buffer q r) v.holds refl refl refl refl refl))
          (rw (start_queue-dropped (take_buffer q r)) h)));
  position = add_take-queue_pos all q r rate time_ms v.position k;
  position_fits = omega (arith, total-append all (r ∷ []));
}
