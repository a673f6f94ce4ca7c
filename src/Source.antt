-- ===== src/Source.antt =====
-- src/source.c and src/source.h: the queue of blocks of a source and the listeners that read it.
-- A pointer to a block is the block's number in the order in which blocks were queued, so that
-- `next` of a block is the next number, and NULL at an end of the queue is the number of the block
-- to come. The lock of the source makes each function one step.
pub mod Blocks
pub mod Growth
pub mod Burst
pub mod Shrink
pub mod Sizes
pub mod Serve
pub mod Follow
pub mod Sent
pub mod Joined
pub mod Latest
pub mod Life
pub mod Safe
pub mod Bounds
mod Tests
use mcaster1dnas.Base.{
  ℕ, Bool, List, Option, [], drop, false, if◌then◌else◌, leb, length, ltb, none, some, suc, true,
  zero, ◌%◌, ◌&&◌, ◌++◌, ◌+◌, ◌-◌, ◌/◌, ◌==◌, ◌||◌, ◌∷◌,
}

-- The fields of a queued `refbuf_t`: `len`, and whether the flag SOURCE_BLOCK_SYNC is set.
pub record Block : Type 0 where
  pub len : ℕ
  pub sync : Bool

-- The part of `source_t` that the queue consists of. `dropped` is the number of blocks released,
-- so the number of the first one on the queue. `queue_pos` is that of the client of the source.
pub record Queue : Type 0 where
  pub dropped : ℕ
  pub stream_data : List Block
  pub min_queue_point : ℕ
  pub min_queue_offset : ℕ
  pub min_queue_size : ℕ
  pub queue_size : ℕ
  pub queue_size_limit : ℕ
  pub default_burst_size : ℕ
  pub incoming_rate : ℕ
  pub incoming_adj : ℕ
  pub listener_send_trigger : ℕ
  pub queue_pos : ℕ
  pub buffer_count : ℕ
  pub bytes_read_since_update : ℕ
  pub shrink_pos : ℕ
  pub shrink_time : ℕ

-- Subtraction of the `w`-bit types that the code uses, on values of the type.
abbrev pub sub32 : ℕ → ℕ → ℕ
sub32 a b = (a + 4294967296 - b) % 4294967296

abbrev pub sub64 : ℕ → ℕ → ℕ
sub64 a b = (a + 18446744073709551616 - b) % 18446744073709551616

-- Whether the list of blocks is empty: `stream_data == NULL`.
abbrev pub is_empty : List Block → Bool
is_empty [] = true
is_empty (b ∷ l) = false

-- The first assignments of `source_add_queue_buffer` for an empty queue.
abbrev pub start_queue : Queue → Queue
start_queue q =
    if is_empty q.stream_data
    then record q { min_queue_point = q.dropped; min_queue_offset = 0 }
    else q

-- The block is linked and counted.
abbrev pub link_block : Queue → Block → Queue
link_block q r = record q {
  bytes_read_since_update = (q.bytes_read_since_update + r.len) % 18446744073709551616;
  stream_data = q.stream_data ++ (r ∷ []);
  buffer_count = (q.buffer_count + 1) % 4294967296;
  queue_size = (q.queue_size + r.len) % 4294967296;
  min_queue_offset = (q.min_queue_offset + r.len) % 4294967296;
}

-- Every fourth block renews the rate, which `rate_avg` gives.
abbrev pub renew_rate : Queue → ℕ → Queue
renew_rate q rate = if q.buffer_count % 4 == 3 then record q { incoming_rate = rate } else q

-- Every 32nd block begins the search for the listener that is furthest behind.
abbrev pub start_shrink : Queue → ℕ → Queue
start_shrink q time_ms =
    if (q.shrink_time == 0) && (q.buffer_count % 32 == 31)
    then record q { shrink_pos = sub64 q.queue_pos q.min_queue_offset; shrink_time = time_ms + 600 }
    else q

-- `source_add_queue_buffer`, behind what `get_buffer` of the format does to the position.
unfoldable pub add_queue_buffer : Queue → Block → ℕ → ℕ → Queue
add_queue_buffer q r rate time_ms =
    start_shrink (renew_rate (link_block (start_queue q) r) rate) time_ms

-- `source->client->queue_pos += refbuf->len`
unfoldable pub take_buffer : Queue → Block → Queue
take_buffer q r = record q { queue_pos = (q.queue_pos + r.len) % 18446744073709551616 }

-- The loop that moves the starting point for new listeners: from the block `ref` with `off` bytes
-- from there on, and the last point found.
unfoldable pub find_min : ℕ → ℕ → ℕ → ℕ × ℕ → List Block → ℕ × ℕ
find_min size off ref found (b ∷ c ∷ l) =
    let rest =
      find_min size (sub64 off b.len) (suc ref) (if b.sync then (ref, off) else found) (c ∷ l) in
    if ltb size off then rest else found
find_min size off ref found _ = found

-- The blocks from a pointer on.
abbrev pub from : Queue → ℕ → List Block
from q k = drop (k - q.dropped) q.stream_data

unfoldable pub move_min : Queue → Queue
unfolding find_min
move_min q =
    let (point, offset) =
      find_min q.min_queue_size q.min_queue_offset q.min_queue_point
        (q.min_queue_point, q.min_queue_offset) (from q q.min_queue_point) in
    record q { min_queue_point = point; min_queue_offset = offset % 4294967296 }

-- The first block leaves the queue.
abbrev pub drop_first : Queue → Block → List Block → Queue
drop_first q b l = record q {
  dropped = suc q.dropped;
  stream_data = l;
  queue_size = sub32 q.queue_size b.len;
  min_queue_offset =
      if q.min_queue_point == q.dropped then sub32 q.min_queue_offset b.len else q.min_queue_offset;
  min_queue_point = if q.min_queue_point == q.dropped then suc q.dropped else q.min_queue_point;
}

-- One turn of the loop that reduces the queue; `none` is its end.
unfoldable pub trim_step : ℕ → Queue → List Block → Option Queue
trim_step target q (b ∷ c ∷ l) =
    if leb q.queue_size target then none else some (drop_first q b (c ∷ l))
trim_step target q _ = none

-- `while (source->queue_size > queue_size_target && loop)`
unfoldable pub trim : ℕ → ℕ → Queue → Queue
unfolding trim_step
trim zero target q = q
trim (suc loop) target q = elim (trim_step target q q.stream_data) [
  | none ↦ q
  | some q' ↦ trim loop target q'
]

-- What the listener furthest behind has yet to read, within the limits.
abbrev pub shrink_goal : Queue → ℕ
shrink_goal q =
    let lag = sub64 q.queue_pos q.shrink_pos in
    if ltb lag q.min_queue_size
    then q.min_queue_size
    else if ltb q.queue_size_limit lag
    then q.queue_size_limit
    else lag

-- The target of the reduction.
abbrev pub shrink_target : Queue → ℕ
shrink_target q = shrink_goal q + 8000

-- The end of a round of `_source_read`: the queue is reduced when the time has come.
unfoldable pub shrink : Queue → ℕ → Queue
unfolding trim
shrink q time_ms =
    if (q.shrink_time == 0) || ltb time_ms q.shrink_time
    then q
    else trim (48 + q.incoming_rate / 8192) (shrink_target q)
        (record q { shrink_pos = 0; shrink_time = 0 })

-- `source_clear_source`: every block is released.
unfoldable pub clear_source : Queue → Queue
clear_source q = record q {
  dropped = q.dropped + length q.stream_data;
  stream_data = [];
  min_queue_point = q.dropped + length q.stream_data;
  min_queue_size = 0;
  min_queue_offset = 0;
  default_burst_size = 0;
  queue_size = 0;
  queue_size_limit = 0;
  shrink_pos = 0;
  shrink_time = 0;
}
