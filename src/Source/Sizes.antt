-- ===== src/Source/Sizes.antt =====
-- src/source.c, lines 588 to 671: the sizes that the configuration asks for, and their checks.
use mcaster1dnas.Base.{ℕ, if◌then◌else◌, leb, ltb, ◌%◌, ◌*◌, ◌+◌, ◌-◌, ◌/◌, ◌==◌, ◌||◌, []}
use mcaster1dnas.Source.{Queue}

-- `source_convert_qvalue`: a value with its top bit set is in seconds.
unfoldable pub convert_qvalue : Queue → ℕ → ℕ
convert_qvalue q value =
    if leb 2147483648 value then q.incoming_rate * (value - 2147483648) % 4294967296 else value

-- The sizes as configured: `default_burst_value`, `queue_len_value` and `min_queue_len_value`.
pub record Settings : Type 0 where
  pub burst : ℕ
  pub queue_len : ℕ
  pub min_queue_len : ℕ

-- The burst is bounded.
abbrev pub check_burst : ℕ → ℕ
check_burst n = if ltb 50000000 n then 100000 else n

abbrev pub check_limit : ℕ → ℕ
check_limit n = if ltb 1000000000 n then 1000000 else n

abbrev pub check_min : ℕ → ℕ → ℕ
check_min burst n = if ltb 50000000 n || ltb n burst then burst else n

abbrev pub set_sizes : Queue → ℕ → ℕ → ℕ → Queue
set_sizes q burst limit least = record q {
  default_burst_size = burst;
  queue_size_limit = limit;
  min_queue_size = least;
}

-- The limit leaves room for `wanted`, or the configuration is changed so that it does.
abbrev pub settle : Queue → Settings → ℕ → ℕ → ℕ → ℕ → Queue × Settings
settle q s burst limit least wanted =
    if ltb limit wanted
    then (
      set_sizes q burst (wanted % 4294967296) least,
      record s { queue_len = wanted % 4294967296 },
    )
    else (set_sizes q burst limit least, s)

-- The checks of the sizes, for the measured rate.
abbrev pub check_sizes : Queue → Settings → ℕ → ℕ → ℕ → ℕ → Queue × Settings
check_sizes q s rate burst limit least =
    let n : ℕ = check_min (check_burst burst) least in
    settle q s (check_burst burst) (check_limit limit) n (n + rate * 4)

-- The part of `update_source_stats` that sets the sizes, for the measured rate.
-- `round` is the value of a 32-bit number as a `float`.
unfoldable pub update_sizes : (ℕ → ℕ) → Queue → Settings → ℕ → Queue × Settings
update_sizes round q s rate =
    if rate == 0
    then (q, s)
    else check_sizes q s rate (convert_qvalue q s.burst) (round (convert_qvalue q s.queue_len))
        (convert_qvalue q s.min_queue_len)

-- The last part of it: how often listeners are served.
unfoldable pub update_pace : Queue → ℕ → Queue
update_pace q incoming_rate = record q {
  bytes_read_since_update = q.bytes_read_since_update % 1024;
  listener_send_trigger = if ltb incoming_rate 8000 then 8000 else 8000 + incoming_rate / 16;
  incoming_adj = if ltb 0 incoming_rate then 2000000 / incoming_rate else 20;
}

-- What `source_reserve` allocates, zeroed.
abbrev pub reserved : Queue
reserved = record {
  dropped = 0;
  stream_data = [];
  min_queue_point = 0;
  min_queue_offset = 0;
  min_queue_size = 0;
  queue_size = 0;
  queue_size_limit = 0;
  default_burst_size = 0;
  incoming_rate = 0;
  incoming_adj = 0;
  listener_send_trigger = 16000;
  queue_pos = 0;
  buffer_count = 0;
  bytes_read_since_update = 0;
  shrink_pos = 0;
  shrink_time = 0;
}

-- What `source_init` sets of the queue.
unfoldable pub source_init : Queue → Queue
source_init q = record q {
  buffer_count = 0;
  queue_size_limit = 200000000;
  default_burst_size = 300000;
  min_queue_size = 600000;
}
