-- ===== src/Source/Tests.antt =====
-- The queue at concrete blocks.
use mcaster1dnas.Source.Joined.{Starts, locate_start-Starts}
use mcaster1dnas.Source.Follow.{FollowsAt}
use mcaster1dnas.Source.Latest.{IsStart, move_min-latest}
use mcaster1dnas.Source.Safe.{shrink-keeps, Reached-queue_advance}
use mcaster1dnas.Source.Bounds.{Fit, Trimmed, update_sizes-Fit, trim_ends}
use mcaster1dnas.Source.Growth.{IsQueue, add_queue_buffer-IsQueue}
use mcaster1dnas.Source.Sizes.{convert_qvalue, source_init, reserved, update_sizes}
use mcaster1dnas.Base.{
  inl, List, [], arith, false, refl, some, true, ◌∷◌, ◌≡◌, none, ℕ, ◌++◌, ◌+◌, ◌≤◌, ◌⊎◌,
}
use mcaster1dnas.Source.{Block, Queue, add_queue_buffer, take_buffer, move_min, shrink, trim}
use mcaster1dnas.Source.Serve.{
  nothing, queued, Listener, choose_start, find_sync, locate_start, walk_burst, begun, join,
  queue_advance, served, set_shrink,
}
use mcaster1dnas.Source.Life.{Reached, started, arrived, same_queue-IsQueue}

abbrev first_block : Block
first_block = record { len = 100; sync = true }

abbrev second_block : Block
second_block = record { len = 50; sync = false }

abbrev third_block : Block
third_block = record { len = 200; sync = true }

abbrev three_blocks : List Block
three_blocks = first_block ∷ second_block ∷ third_block ∷ []

abbrev newcomer : Listener
newcomer = record {
  refbuf = nothing;
  pos = 0;
  queue_pos = 0;
  counter = 0;
  sent_bytes = 0;
  schedule_ms = 0;
  error = false;
  intro = false;
  on_intro = false;
}

-- The queue with the three blocks, written out.
abbrev filled : Queue
filled = record reserved {
  stream_data = three_blocks;
  min_queue_offset = 350;
  queue_size = 350;
  queue_size_limit = 200000000;
  default_burst_size = 300000;
  min_queue_size = 600000;
  queue_pos = 350;
  buffer_count = 3;
  bytes_read_since_update = 350;
}

filled-IsQueue : IsQueue three_blocks filled
filled-IsQueue = record {
  holds = record {
    dropped_le = omega arith;
    blocks = refl;
    size = refl;
    size_fits = omega arith;
    point_ge = omega arith;
    point_le = omega arith;
    offset = refl;
  };
  position = refl;
  position_fits = omega arith;
}

filled-Reached : Reached three_blocks filled newcomer
unfolding add_queue_buffer take_buffer source_init
filled-Reached =
    arrived third_block 0 0
      (arrived second_block 0 0
        (arrived first_block 0 0 (started newcomer refl) (omega arith, omega arith) (omega arith)
          (omega arith))
        (omega arith, omega arith) (omega arith) (omega arith))
      (omega arith, omega arith) (omega arith) (omega arith)

joined : (locate_start filled (some 300) newcomer).0 ≡ true
unfolding locate_start choose_start walk_burst find_sync convert_qvalue
joined = refl

-- A burst of 300 bytes begins with the third block: the walk measures from `min_queue_size` bytes,
-- not from the 350 that are there.
joined_third : (locate_start filled (some 300) newcomer).1.refbuf ≡ queued 2
unfolding locate_start choose_start walk_burst find_sync convert_qvalue
joined_third = refl

Reached-queue_advance_example :
    (c' : Listener) × (n : ℕ) × (queue_advance filled none false (60 ∷ 40 ∷ []) newcomer
      ≡ served c' n)
    × (c'.queue_pos ≡ (begun filled none newcomer nothing).1.queue_pos + n)
Reached-queue_advance_example =
    Reached-queue_advance three_blocks filled newcomer none false (60 ∷ 40 ∷ []) filled-Reached refl

add_queue_buffer-IsQueue_example :
    IsQueue
      (three_blocks ++ (first_block ∷ []))
      (add_queue_buffer (take_buffer filled first_block) first_block 16000 5000)
add_queue_buffer-IsQueue_example =
    add_queue_buffer-IsQueue three_blocks filled first_block 16000 5000 filled-IsQueue (omega arith)
      (omega arith)

locate_start-Starts_example :
    (m : ℕ × ℕ) × Starts three_blocks filled m
    × ((locate_start filled (some 300) newcomer).1 ≡ join filled newcomer m)
    × FollowsAt three_blocks m.0 (join filled newcomer m)
locate_start-Starts_example =
    locate_start-Starts three_blocks filled filled-IsQueue (some 300) newcomer joined

-- A queue that need only hold 200 bytes.
abbrev low : Queue
low = record filled { min_queue_size = 200 }

low-IsQueue : IsQueue three_blocks low
low-IsQueue = record {
  holds = record {
    dropped_le = omega arith;
    blocks = refl;
    size = refl;
    size_fits = omega arith;
    point_ge = omega arith;
    point_le = omega arith;
    offset = refl;
  };
  position = refl;
  position_fits = omega arith;
}

move_min-latest_example :
    (((move_min low).min_queue_point ≡ 0) ⊎ IsStart three_blocks 200 (move_min low).min_queue_point)
    × ((j : ℕ) → 0 ≤ j → IsStart three_blocks 200 j → j ≤ (move_min low).min_queue_point)
move_min-latest_example = move_min-latest three_blocks low low-IsQueue

-- A listener that has read 30 bytes of the first block.
abbrev reader : Listener
reader = record newcomer { refbuf = queued 0; pos = 30; queue_pos = 30 }

reader-FollowsAt : FollowsAt three_blocks 0 reader
reader-FollowsAt = record {
  held = refl;
  no_intro = refl;
  lt = omega arith;
  pos_le = omega arith;
  position = refl;
}

shrink-keeps_example : (shrink (set_shrink filled 20 5) 9).dropped ≤ 0
shrink-keeps_example =
    shrink-keeps three_blocks (set_shrink filled 20 5) 0 9 reader
      (same_queue-IsQueue three_blocks filled (set_shrink filled 20 5) filled-IsQueue refl refl refl
        refl refl refl)
      reader-FollowsAt (omega arith) (omega arith) (omega arith) (omega arith)

update_sizes-Fit_example :
    Fit
      (update_sizes
        (λ n. n)
        filled
        (record { burst = 2147483658; queue_len = 500000; min_queue_len = 0 })
        16000).0
      16000
update_sizes-Fit_example =
    update_sizes-Fit (λ n. n) filled
      (record { burst = 2147483658; queue_len = 500000; min_queue_len = 0 }) 16000 (omega arith)
      (inl (omega arith))

trim_ends_example : Trimmed three_blocks 2 40 filled (trim 2 40 filled)
trim_ends_example = let v = filled-IsQueue in trim_ends three_blocks 2 40 filled v.holds
