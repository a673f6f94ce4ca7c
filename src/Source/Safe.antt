-- ===== src/Source/Safe.antt =====
-- src/source.c: no order of steps leads a listener to a block that was released.
use mcaster1dnas.Source.Burst.{move_min-IsQueue}
use mcaster1dnas.Source.Blocks.{rest_le}
use mcaster1dnas.Source.Shrink.{shrink-cases, trim-block, shrink-IsQueue}
use mcaster1dnas.Source.Follow.{Follows, FollowsAt, Sized}
use mcaster1dnas.Source.Sent.{Went, queue_advance-Went}
use mcaster1dnas.Source.Growth.{IsQueue, add_queue_buffer-IsQueue, same_queue-Holds}
use mcaster1dnas.Base.{
  ℕ, All-append, Bool, List, Option, [], arith, false, subst, sym, ◌+◌, ◌/◌, ◌∙◌, ◌∷◌, ◌≡◌, ◌≤◌,
  refl,
}
use mcaster1dnas.Source.{Block, Queue, move_min, shrink, sub64, shrink_goal}
use mcaster1dnas.Source.Serve.{
  served, Listener, Served, begun, queue_advance, record_lag, set_shrink,
}
use mcaster1dnas.Source.Life.{
  Reached, started, arrived, moved, reduced, resized, recorded, sent, returned, Sound,
  Follows-append, Follows-nothing, record_lag-IsQueue, source_init-IsQueue, update_pace-IsQueue,
  update_sizes-IsQueue,
}

served-Follows :
    (all : List Block) (start : ℕ) (r : Served) (c : Listener) (n : ℕ)
    → Went all start r
    → r ≡ served c n
    → Follows all c
served-Follows all start r c n w e =
    let p : served w.listener w.written ≡ served c n = sym w.ended ∙ e in
    subst (Follows all) (ground arith) w.follows

Sound-with :
    (all : List Block) (q q' : Queue) (c : Listener)
    → Sound all q c
    → IsQueue all q'
    → Sound all q' c
Sound-with all q q' c s v = record { queue = v; sized = s.sized; follows = s.follows }

pub Reached-Sound : {all : List Block} {q : Queue} {c : Listener} → Reached all q c → Sound all q c
Reached-Sound (started c e) = record {
  queue = source_init-IsQueue;
  sized = tt;
  follows = Follows-nothing [] c e;
}
Reached-Sound (arrived {all} {q} {c} r rate time_ms h z m k) =
    let s = Reached-Sound h in
    record {
      queue = add_queue_buffer-IsQueue all q r rate time_ms s.queue m k;
      sized = All-append Sized all (r ∷ []) s.sized (z, tt);
      follows = Follows-append all r c s.follows;
    }
Reached-Sound (moved {all} {q} {c} h) =
    let s = Reached-Sound h in Sound-with all q (move_min q) c s (move_min-IsQueue all q s.queue)
Reached-Sound (reduced {all} {q} {c} time_ms h) =
    let s = Reached-Sound h in
    Sound-with all q (shrink q time_ms) c s (shrink-IsQueue all q time_ms s.queue)
Reached-Sound (resized {all} {q} {c} round t rate h) =
    let s = Reached-Sound h in
    Sound-with all q _ c s
      (update_pace-IsQueue all _ rate (update_sizes-IsQueue all round q t rate s.queue))
Reached-Sound (recorded {all} {q} {c} h) =
    let s = Reached-Sound h in
    Sound-with all q (record_lag q c) c s (record_lag-IsQueue all q c s.queue)
Reached-Sound (sent {all} {q} {c} c' burst norequeue offers n h o e) =
    let s = Reached-Sound h in
    record {
      queue = s.queue;
      sized = s.sized;
      follows =
          served-Follows all _ _ c' n
            (queue_advance-Went all q s.queue s.sized burst norequeue offers c s.follows o) e;
    }
Reached-Sound (returned {all} {q} {c} c' h e) =
    let s = Reached-Sound h in
    record { queue = s.queue; sized = s.sized; follows = Follows-nothing all c' e }

-- However blocks arrived, the queue was reduced and resized, and the listener was served before:
-- where blocks have 1 to 66000 bytes and the sizes fit their types, serving the listener neither
-- touches a block that was released nor ends in `abort`. It gives a listener whose position went on
-- by the bytes written, from where it was or joined.
pub Reached-queue_advance :
    (all : List Block) (q : Queue) (c : Listener) (burst : Option ℕ) (norequeue : Bool)
    (offers : List ℕ)
    → Reached all q c
    → c.on_intro ≡ false
    → (c' : Listener) × (n : ℕ) × (queue_advance q burst norequeue offers c ≡ served c' n)
      × (c'.queue_pos ≡ (begun q burst c c.refbuf).1.queue_pos + n)
Reached-queue_advance all q c burst norequeue offers h o =
    let s = Reached-Sound h in
    let w = queue_advance-Went all q s.queue s.sized burst norequeue offers c s.follows o in
    (w.listener, w.written, w.ended, w.counted)

-- A listener that the reduction of the queue knows of keeps its block: one in the block `k`, whose
-- position is not before the recorded one, is on the queue afterwards if it was before, where the
-- recorded position is within the limit and no more than 8000 bytes of the block are read.
pub shrink-keeps :
    (all : List Block) (q : Queue) (k time_ms : ℕ) (c : Listener)
    → IsQueue all q
    → FollowsAt all k c
    → q.dropped ≤ k
    → c.pos ≤ 8000
    → q.shrink_pos ≤ c.queue_pos
    → sub64 q.queue_pos q.shrink_pos ≤ q.queue_size_limit
    → (shrink q time_ms).dropped ≤ k
shrink-keeps all q k time_ms c v f live p h m =
    shrink-cases (λ r. r.dropped ≤ k) q time_ms live
      (trim-block all (48 + q.incoming_rate / 8192) (shrink_goal q) k c.pos (set_shrink q 0 0)
        (ground
          (arith, v.position, v.position_fits, f.position, f.pos_le, rest_le all 0 k (omega arith)))
        p (same_queue-Holds all q (set_shrink q 0 0) v.holds refl refl refl refl refl) live)
