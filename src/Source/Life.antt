-- ===== src/Source/Life.antt =====
-- src/source.c: a source and one of its listeners, in any order of their steps.
use mcaster1dnas.Source.Blocks.{rest-append, total-append, rest, total}
use mcaster1dnas.Source.Follow.{Follows, FollowsAt, FollowsBy, Sized}
use mcaster1dnas.Source.Growth.{IsQueue, same_queue-Holds}
use mcaster1dnas.Source.Sizes.{
  update_pace, update_sizes, source_init, reserved, Settings, check_sizes, convert_qvalue,
  set_sizes, settle,
}
use mcaster1dnas.Base.{
  ℕ, All, Bool, List, Option, [], arith, false, if-cases, length-append, ltb, refl, subst, suc, sym,
  ◌++◌, ◌+◌, ◌<◌, ◌==◌, ◌∙◌, ◌∷◌, ◌≡◌, ◌%◌,
}
use mcaster1dnas.Source.{Block, Queue, add_queue_buffer, move_min, shrink, take_buffer}
use mcaster1dnas.Source.Serve.{
  served, nothing, Held, Listener, copied, queue_advance, queued, record_lag, is_behind, set_shrink,
}

-- Blocks queued so far, the queue and the listener. The listener begins with nothing in hand and
-- does so again when it comes back from other content.
pub data Reached : List Block → Queue → Listener → Type 0 where
  started : (c : Listener) → c.refbuf ≡ nothing → Reached [] (source_init reserved) c
  arrived :
      {all : List Block} {q : Queue} {c : Listener} (r : Block) (rate time_ms : ℕ)
      → Reached all q c
      → Sized r
      → rest all q.dropped + r.len < 4294967296
      → total all + r.len < 18446744073709551616
      → Reached (all ++ (r ∷ [])) (add_queue_buffer (take_buffer q r) r rate time_ms) c
  moved :
      {all : List Block} {q : Queue} {c : Listener} → Reached all q c → Reached all (move_min q) c
  reduced :
      {all : List Block} {q : Queue} {c : Listener} (time_ms : ℕ)
      → Reached all q c
      → Reached all (shrink q time_ms) c
  resized :
      {all : List Block} {q : Queue} {c : Listener} (round : ℕ → ℕ) (s : Settings) (rate : ℕ)
      → Reached all q c
      → Reached all (update_pace (update_sizes round q s rate).0 rate) c
  recorded :
      {all : List Block} {q : Queue} {c : Listener}
      → Reached all q c
      → Reached all (record_lag q c) c
  sent :
      {all : List Block} {q : Queue} {c : Listener} (c' : Listener) (burst : Option ℕ)
      (norequeue : Bool) (offers : List ℕ) (n : ℕ)
      → Reached all q c
      → c.on_intro ≡ false
      → queue_advance q burst norequeue offers c ≡ served c' n
      → Reached all q c'
  returned :
      {all : List Block} {q : Queue} {c : Listener} (c' : Listener)
      → Reached all q c
      → c'.refbuf ≡ nothing
      → Reached all q c'

-- What holds of all of them.
pub record Sound (all : List Block) (q : Queue) (c : Listener) : Type 0 where
  pub queue : IsQueue all q
  pub sized : All Sized all
  pub follows : Follows all c

pub same_queue-IsQueue :
    (all : List Block) (q q' : Queue)
    → IsQueue all q
    → q'.dropped ≡ q.dropped
    → q'.stream_data ≡ q.stream_data
    → q'.queue_size ≡ q.queue_size
    → q'.min_queue_point ≡ q.min_queue_point
    → q'.min_queue_offset ≡ q.min_queue_offset
    → q'.queue_pos ≡ q.queue_pos
    → IsQueue all q'
same_queue-IsQueue all q q' v d b s p o at = record {
  holds = same_queue-Holds all q q' v.holds d b s p o;
  position = at ∙ v.position;
  position_fits = v.position_fits;
}

FollowsAt-append :
    (all : List Block) (r : Block) (k : ℕ) (c : Listener)
    → FollowsAt all k c
    → FollowsAt (all ++ (r ∷ [])) k c
FollowsAt-append all r k c f = record {
  held = f.held;
  no_intro = f.no_intro;
  lt = omega (arith, f.lt, length-append all (r ∷ []));
  pos_le = omega (
    arith,
    f.pos_le,
    f.lt,
    rest-append all k r (omega (arith, f.lt)),
    rest-append all (suc k) r (omega (arith, f.lt)),
  );
  position =
      omega
        (arith, f.position, total-append all (r ∷ []), rest-append all k r (omega (arith, f.lt)));
}

FollowsBy-append :
    (all : List Block) (r : Block) (c : Listener) (h : Held)
    → FollowsBy all c h
    → FollowsBy (all ++ (r ∷ [])) c h
FollowsBy-append all r c nothing f = tt
FollowsBy-append all r c (queued k) f = FollowsAt-append all r k c f
FollowsBy-append all r c (copied b) f = f

pub Follows-nothing : (all : List Block) (c : Listener) → c.refbuf ≡ nothing → Follows all c
unfolding Follows
Follows-nothing all c e = subst (FollowsBy all c) (sym e) tt

pub Follows-append :
    (all : List Block) (r : Block) (c : Listener) → Follows all c → Follows (all ++ (r ∷ [])) c
unfolding Follows
Follows-append all r c f = FollowsBy-append all r c c.refbuf f

pub source_init-IsQueue : IsQueue [] (source_init reserved)
unfolding source_init
source_init-IsQueue = record {
  holds = record {
    dropped_le = omega arith;
    blocks = refl;
    size = refl;
    size_fits = omega arith;
    point_ge = omega arith;
    point_le = omega arith;
    offset = refl;
  };
  position = refl;
  position_fits = omega arith;
}

set_sizes-IsQueue :
    (all : List Block) (q : Queue) (burst limit least : ℕ)
    → IsQueue all q
    → IsQueue all (set_sizes q burst limit least)
set_sizes-IsQueue all q burst limit least v =
    same_queue-IsQueue all q (set_sizes q burst limit least) v refl refl refl refl refl refl

settle-IsQueue :
    (all : List Block) (q : Queue) (s : Settings) (burst limit least wanted : ℕ)
    → IsQueue all q
    → IsQueue all (settle q s burst limit least wanted).0
settle-IsQueue all q s burst limit least wanted v =
    if-cases (λ (r : Queue × Settings). IsQueue all r.0) (ltb limit wanted)
      (set_sizes q burst (wanted % 4294967296) least, record s { queue_len = wanted % 4294967296 })
      (set_sizes q burst limit least, s)
      (λ t. set_sizes-IsQueue all q burst (wanted % 4294967296) least v)
      (λ t. set_sizes-IsQueue all q burst limit least v)

pub update_sizes-IsQueue :
    (all : List Block) (round : ℕ → ℕ) (q : Queue) (s : Settings) (rate : ℕ)
    → IsQueue all q
    → IsQueue all (update_sizes round q s rate).0
unfolding update_sizes
update_sizes-IsQueue all round q s rate v =
    if-cases (λ (r : Queue × Settings). IsQueue all r.0) (rate == 0) (q, s)
      (check_sizes q s rate (convert_qvalue q s.burst) (round (convert_qvalue q s.queue_len))
        (convert_qvalue q s.min_queue_len))
      (λ t. v) (λ t. settle-IsQueue all q s _ _ _ _ v)

pub update_pace-IsQueue :
    (all : List Block) (q : Queue) (rate : ℕ) → IsQueue all q → IsQueue all (update_pace q rate)
unfolding update_pace
update_pace-IsQueue all q rate v = same_queue-IsQueue all q _ v refl refl refl refl refl refl

pub record_lag-IsQueue :
    (all : List Block) (q : Queue) (c : Listener) → IsQueue all q → IsQueue all (record_lag q c)
unfolding record_lag
record_lag-IsQueue all q c v =
    if-cases (IsQueue all) (is_behind q c) (set_shrink q c.queue_pos q.shrink_time) q
      (λ t.
        same_queue-IsQueue all q (set_shrink q c.queue_pos q.shrink_time) v refl refl refl refl refl
          refl)
      (λ t. v)
