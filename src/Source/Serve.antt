-- ===== src/Source/Serve.antt =====
-- src/source.c, lines 1094 to 1257, and src/format.c, lines 267 to 290: a listener takes its place
-- on the queue and is sent blocks of it.
use mcaster1dnas.Source.Sizes.{convert_qvalue}
use mcaster1dnas.Base.{
  ℕ, Bool, List, Option, [], false, get_elem?, if◌then◌else◌, leb, length, ltb, min, none, not,
  some, suc, true, zero, ◌%◌, ◌&&◌, ◌*◌, ◌+◌, ◌-◌, ◌/◌, ◌==◌, ◌||◌, ◌∷◌,
}
use mcaster1dnas.Source.{Block, Queue, from, sub64}

-- What `client->refbuf` points to: nothing, a block of the queue by its number, or a copy.
pub data Held : Type 0 where
  nothing : Held
  queued : ℕ → Held
  copied : Block → Held

-- The fields of `client_t` that the queue concerns. `intro` is the flag CLIENT_HAS_INTRO_CONTENT,
-- `on_intro` says that `check_buffer` is `http_source_introfile`.
pub record Listener : Type 0 where
  pub refbuf : Held
  pub pos : ℕ
  pub queue_pos : ℕ
  pub counter : ℕ
  pub sent_bytes : ℕ
  pub schedule_ms : ℕ
  pub error : Bool
  pub intro : Bool
  pub on_intro : Bool

-- The walk to the burst: the block that is reached and the bytes from it on.
unfoldable pub walk_burst : ℕ → ℕ → ℕ → ℕ → List Block → ℕ × ℕ
walk_burst size v lag k (b ∷ c ∷ l) =
    let further = walk_burst (sub64 size b.len) v (sub64 lag b.len) (suc k) (c ∷ l) in
    if ltb v size then further else (k, lag)
walk_burst size v lag k _ = (k, lag)

-- The search for a block that a listener can start with.
unfoldable pub find_sync : ℕ → ℕ → List Block → Option (ℕ × ℕ)
find_sync lag k [] = none
find_sync lag k (b ∷ l) =
    let further = find_sync (sub64 lag b.len) (suc k) l in if b.sync then some (k, lag) else further

abbrev pub tail_number : Queue → ℕ
tail_number q = q.dropped + length q.stream_data - 1

-- The size of the burst: what the request says, or the default.
abbrev pub burst_size : Queue → Option ℕ → ℕ
burst_size q none = q.default_burst_size
burst_size q (some v) = convert_qvalue q v

-- The block to begin the search at and the bytes from it on, for the last block of the queue.
unfoldable pub choose_start : Queue → Option ℕ → Listener → Block → ℕ × ℕ
unfolding walk_burst
choose_start q burst c tail =
    let v = burst_size q burst in
    if ltb q.min_queue_offset c.sent_bytes && tail.sync
    then (tail_number q, tail.len)
    else if ltb c.sent_bytes v
    then walk_burst q.min_queue_size (v - c.sent_bytes) q.min_queue_offset q.min_queue_point
        (from q q.min_queue_point)
    else (tail_number q, tail.len)

abbrev pub join : Queue → Listener → ℕ × ℕ → Listener
join q c m = record c {
  refbuf = queued m.0;
  pos = 0;
  counter = 0;
  queue_pos = sub64 q.queue_pos m.1;
  intro = false;
}

-- `locate_start_on_queue`; `burst` is the parameter of the request, as converted to a number.
unfoldable pub locate_start : Queue → Option ℕ → Listener → Bool × Listener
unfolding choose_start find_sync
locate_start q burst c =
    if c.error then (false, c) else elim (get_elem? q.stream_data (length q.stream_data - 1)) [
      | none ↦ (false, c)
      | some tail ↦
          let start : ℕ × ℕ = choose_start q burst c tail in
          elim (find_sync start.1 start.0 (from q start.0)) [
            | none ↦ (false, record c { schedule_ms = c.schedule_ms + 150 })
            | some m ↦ (true, join q c m)
          ]
    ]

-- The block that a pointer shows; `none` when it was released.
abbrev pub block_at : Queue → ℕ → Option Block
block_at q k = if ltb k q.dropped then none else get_elem? q.stream_data (k - q.dropped)

-- `format_generic_write_to_client` where the socket takes up to `n` bytes.
abbrev pub write_to_client : Listener → Block → ℕ → Listener
write_to_client c b n =
    let sent = min n (b.len - c.pos) in
    record c {
      pos = c.pos + sent;
      counter = (c.counter + sent) % 18446744073709551616;
      queue_pos = (c.queue_pos + sent) % 18446744073709551616;
      sent_bytes = (c.sent_bytes + sent) % 18446744073709551616;
    }

-- How the code ends: by `abort`, with an access to a released block, or with the listener and the
-- number of bytes written.
pub data Served : Type 0 where
  aborted freed : Served
  served : Listener → ℕ → Served

-- One turn of the loop at the block `b`: the listener, the bytes written, and the offers left.
abbrev pub write_block : Listener → Block → List ℕ → Listener × List ℕ
write_block c b [] = (c, [])
write_block c b (n ∷ l) = if ltb c.pos b.len then (write_to_client c b n, l) else (c, n ∷ l)

-- The loop over the blocks. `offers` says how much the socket takes at each write.
unfoldable pub send_blocks : ℕ → Queue → ℕ → List ℕ → Listener → ℕ → Served
send_blocks zero q k offers c written = served c written
send_blocks (suc loop) q k offers c written = elim (block_at q k) [
  | none ↦ freed
  | some b ↦
      let next : Listener × List ℕ = write_block c b offers in
      let sum : ℕ = written + (next.0.pos - c.pos) in
      let further =
        send_blocks loop q (suc k) next.1 (record next.0 { refbuf = queued (suc k); pos = 0 })
          sum in
      if ltb 66000 b.len
      then aborted
      else if leb b.len next.0.pos
      then (elim (block_at q (suc k)) [ none ↦ served next.0 sum | some n ↦ further ])
      else served next.0 sum
]

-- A listener that is far behind goes to the intro content, with a copy of a block half read.
abbrev pub requeue : Queue → Listener → Block → Listener
requeue q c b =
    let wait = if ltb q.incoming_rate 16000 then q.incoming_rate / 16 else 800 in
    if ltb c.pos b.len
    then record c {
      refbuf = copied b;
      intro = true;
      on_intro = true;
      schedule_ms = c.schedule_ms + wait;
    }
    else record c { refbuf = nothing; pos = 0; on_intro = true; schedule_ms = c.schedule_ms + wait }

-- Whether a listener may be sent back: it lags, it has received a good amount of data, and its
-- request does not say `norequeue`.
abbrev pub may_requeue : Queue → Bool → Listener → ℕ → Bool
may_requeue q norequeue c lag =
    ltb q.queue_size_limit (lag + q.incoming_rate)
    && not c.error
    && ltb (q.queue_size_limit * 2 % 4294967296) c.counter
    && not norequeue

-- A listener that has a block of the queue.
unfoldable pub serve : Queue → Bool → List ℕ → Listener → ℕ → Served
unfolding send_blocks
serve q norequeue offers c k =
    let lag = sub64 q.queue_pos c.queue_pos in
    if c.intro
    then aborted
    else if lag == 0
    then served (record c { schedule_ms = c.schedule_ms + 5 + q.incoming_adj / 2 }) 0
    else if ltb q.queue_size lag || ((lag == q.queue_size) && ltb 0 c.pos)
    then served (record c { refbuf = nothing; error = true }) 0
    else if may_requeue q norequeue c lag
    then (elim (block_at q k) [ none ↦ freed | some b ↦ served (requeue q c b) 0 ])
    else send_blocks 49 q k offers c 0

-- The block in hand: one of the queue is served, a copy comes with the flag that is trapped.
abbrev pub serve_held : Queue → Bool → List ℕ → Listener → Held → Served
serve_held q norequeue offers c nothing = freed
serve_held q norequeue offers c (queued k) = serve q norequeue offers c k
serve_held q norequeue offers c (copied b) = aborted

-- The block that a listener begins with, when it holds none, is looked for first.
abbrev pub begun : Queue → Option ℕ → Listener → Held → Bool × Listener
begun q burst c nothing = locate_start q burst c
begun q burst c (queued k) = (true, c)
begun q burst c (copied b) = (true, c)

-- `source_queue_advance`
unfoldable pub queue_advance : Queue → Option ℕ → Bool → List ℕ → Listener → Served
unfolding locate_start serve
queue_advance q burst norequeue offers c =
    let found : Bool × Listener = begun q burst c c.refbuf in
    if found.0 then serve_held q norequeue offers found.1 found.1.refbuf else served found.1 0

-- Whether a listener is further behind than the one recorded, and not too far.
abbrev pub is_behind : Queue → Listener → Bool
is_behind q c =
    ltb 0 q.shrink_time
    && not c.error
    && ltb (sub64 q.queue_pos c.queue_pos) q.queue_size_limit
    && ltb c.queue_pos q.shrink_pos

abbrev pub set_shrink : Queue → ℕ → ℕ → Queue
set_shrink q pos time_ms = record q { shrink_pos = pos; shrink_time = time_ms }

-- The end of `send_listener`: the position of the listener furthest behind is recorded.
unfoldable pub record_lag : Queue → Listener → Queue
record_lag q c = if is_behind q c then set_shrink q c.queue_pos q.shrink_time else q
