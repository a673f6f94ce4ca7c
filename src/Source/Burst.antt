-- ===== src/Source/Burst.antt =====
-- src/source.c, lines 788 to 812: where new listeners start.
use mcaster1dnas.Source.Growth.{IsQueue, from-drop}
use mcaster1dnas.Source.Blocks.{rest, drop-suc, rest-suc, drop-lt, rest_le}
use mcaster1dnas.Base.{
  ℕ, List, [], arith, drop, if-cases, if◌then◌else◌, length, ltb, suc, ◌<◌, ◌∷◌, ◌≡◌, ◌≤◌, sym,
}
use mcaster1dnas.Source.{Block, find_min, sub64, Queue, from, move_min}

-- A place of the queue and the number of bytes from there on.
abbrev pub Marks : List Block → ℕ → ℕ × ℕ → Type 0
Marks all lo m = (lo ≤ m.0) × (m.0 ≤ length all) × (m.1 ≡ rest all m.0)

find_min-Marks :
    (all l : List Block) (lo size off ref : ℕ) (found : ℕ × ℕ)
    → drop ref all ≡ l
    → off ≡ rest all ref
    → rest all ref < 4294967296
    → lo ≤ ref
    → Marks all lo found
    → Marks all lo (find_min size off ref found l)
unfolding find_min
find_min-Marks all [] lo size off ref found e o f h m = m
find_min-Marks all (b ∷ []) lo size off ref found e o f h m = m
find_min-Marks all (b ∷ c ∷ l) lo size off ref found e o f h m =
    if-cases (Marks all lo) (ltb size off) _ found
      (λ t.
        find_min-Marks all (c ∷ l) lo size (sub64 off b.len) (suc ref)
          (if b.sync then (ref, off) else found) (drop-suc ref all b (c ∷ l) e)
          (omega (arith, rest-suc all ref b (c ∷ l) e))
          (omega (arith, rest-suc all ref b (c ∷ l) e)) (omega arith)
          (if-cases (Marks all lo) b.sync (ref, off) found
            (λ s. (h, omega (arith, drop-lt ref all b (c ∷ l) e), o)) (λ s. m)))
      (λ t. m)

module _ (all : List Block) (q : Queue) (v : IsQueue all q) where
  abbrev found_point : ℕ × ℕ
  found_point =
      find_min q.min_queue_size q.min_queue_offset q.min_queue_point
        (q.min_queue_point, q.min_queue_offset) (from q q.min_queue_point)

  move_min-Marks : Marks all q.dropped found_point
  move_min-Marks =
      find_min-Marks all (from q q.min_queue_point) q.dropped q.min_queue_size q.min_queue_offset
        q.min_queue_point (q.min_queue_point, q.min_queue_offset)
        (sym (from-drop all q q.min_queue_point v.holds v.holds.point_ge)) v.holds.offset
        (omega (arith, rest_le all q.dropped q.min_queue_point v.holds.point_ge, v.holds.size_fits))
        v.holds.point_ge (v.holds.point_ge, v.holds.point_le, v.holds.offset)

  -- The starting point moves within the queue, with its offset.
  pub move_min-IsQueue : IsQueue all (move_min q)
  unfolding move_min
  move_min-IsQueue =
      let (ge, le, at) = move_min-Marks in
      record {
        holds = record {
          dropped_le = v.holds.dropped_le;
          blocks = v.holds.blocks;
          size = v.holds.size;
          size_fits = v.holds.size_fits;
          point_ge = ge;
          point_le = le;
          offset = omega (arith, at, v.holds.size_fits, rest_le all q.dropped found_point.0 ge);
        };
        position = v.position;
        position_fits = v.position_fits;
      }
