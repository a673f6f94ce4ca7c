-- ===== src/Worker.antt =====
-- src/client.c, lines 448 to 931, and src/client.h: the lists of clients of a worker thread. A list
-- of clients is linked by `next_on_worker`; a pointer to a link is the place of the link, so that a
-- write there leaves the clients before it and puts others behind them. The locks make each
-- function one step.
pub mod Tally
pub mod Kept
pub mod Lives
pub mod Whole
pub mod Stops
pub mod Least
mod Tests
use mcaster1dnas.Base.{
  ℕ, Bool, List, Option, [], drop, false, get_elem?, if◌then◌else◌, ltb, min, none, not, set, some,
  suc, take, true, ◌&&◌, ◌++◌, ◌+◌, ◌-◌, ◌||◌, ◌∷◌, ◌==◌,
}

-- The fields of `client_t` that the worker looks at, and a number for its identity.
pub record Client : Type 0 where
  pub number : ℕ
  pub schedule_ms : ℕ
  pub fast_count : ℕ

-- `worker_t`; the places of the links are those behind the last clients.
pub record Worker : Type 0 where
  pub running : Bool
  pub count : ℕ
  pub pending_count : ℕ
  pub time_ms : ℕ
  pub fast_clients : List Client
  pub fast_tail : ℕ
  pub pending_clients : List Client
  pub pending_tail : ℕ
  pub clients : List Client
  pub last : ℕ

-- `worker_client_t`: `prevp` is a place in the list that the flag `normal` says.
pub record Turn : Type 0 where
  pub prevp : ℕ
  pub normal : Bool
  pub normal_after : Bool
  pub wakeup_ms : ℕ
  pub sched_ms : ℕ

-- A write of clients to a link.
abbrev pub link : List Client → ℕ → List Client → List Client
link l at more = take at l ++ more

-- What `worker_start` sets up.
unfoldable pub new_worker : Worker
new_worker = record {
  running = true;
  count = 0;
  pending_count = 0;
  time_ms = 0;
  fast_clients = [];
  fast_tail = 0;
  pending_clients = [];
  pending_tail = 0;
  clients = [];
  last = 0;
}

-- `worker_add_client`
unfoldable pub worker_add_client : Worker → Client → Worker
worker_add_client w c = record w {
  pending_count = w.pending_count + 1;
  pending_clients = link w.pending_clients w.pending_tail (c ∷ []);
  pending_tail = w.pending_tail + 1;
}

abbrev pub has_clients : List Client → Bool
has_clients [] = false
has_clients (c ∷ l) = true

-- `worker_add_pending_clients`
unfoldable pub worker_add_pending_clients : Worker → Turn → Worker × Turn
worker_add_pending_clients w t =
    if has_clients w.pending_clients
    then (
      record w {
        fast_clients = link w.fast_clients w.fast_tail w.pending_clients;
        fast_tail = w.fast_tail + w.pending_tail;
        count = w.count + w.pending_count;
        pending_clients = [];
        pending_tail = 0;
        pending_count = 0;
      },
      record t { prevp = 0; normal = false },
    )
    else (w, t)

-- The list that a turn goes over.
abbrev pub current : Worker → Turn → List Client
current w t = if t.normal then w.clients else w.fast_clients

-- A list without the client at a place, and the place of its end: the link stays the same, one
-- place nearer to the head, except behind the client that was the last one.
abbrev pub without : List Client → ℕ → List Client
without l at = link l at (drop (suc at) l)

abbrev pub end_without : List Client → ℕ → ℕ → ℕ
end_without l end at = if has_clients (drop (suc at) l) then end - 1 else at

abbrev pub unlink_normal : Worker → ℕ → Worker
unlink_normal w at = record w {
  clients = without w.clients at;
  last = end_without w.clients w.last at;
}

abbrev pub unlink_fast : Worker → ℕ → Worker
unlink_fast w at = record w {
  fast_clients = without w.fast_clients at;
  fast_tail = end_without w.fast_clients w.fast_tail at;
}

-- The client at `prevp` leaves the list.
abbrev pub unlink : Worker → Turn → Worker
unlink w t = if t.normal then unlink_normal w t.prevp else unlink_fast w t.prevp

-- `worker_removed_client`
unfoldable pub worker_removed_client : Worker → Turn → Worker
worker_removed_client w t = record (unlink w t) { count = w.count - 1 }

-- Whether a client is to be run again at once.
abbrev pub is_fast : Worker → Client → Bool
is_fast w c = ltb c.schedule_ms (w.time_ms + 2) && ltb c.fast_count 4

-- The next place, if there is a client behind.
abbrev pub step_on : Worker → Turn → ℕ
step_on w t = if has_clients (drop (suc t.prevp) (current w t)) then suc t.prevp else t.prevp

-- A client that waits: the time to wake up, and its count is reset.
abbrev pub wait_until : Turn → Client → Turn
wait_until t c = record t {
  wakeup_ms = if ltb c.schedule_ms t.wakeup_ms then c.schedule_ms else t.wakeup_ms;
}

-- The client stays in its list and is changed there.
abbrev pub keep_client : Worker → Turn → Client → Worker
keep_client w t c =
    if t.normal
    then record w { clients = set w.clients t.prevp c }
    else record w { fast_clients = set w.fast_clients t.prevp c }

abbrev pub to_fast : Worker → Client → Worker
to_fast w c = record w {
  fast_clients = link w.fast_clients w.fast_tail (c ∷ []);
  fast_tail = w.fast_tail + 1;
}

abbrev pub to_normal : Worker → Client → Worker
to_normal w c = record w { clients = link w.clients w.last (c ∷ []); last = w.last + 1 }

-- The client goes to the end of the other list.
abbrev pub swap_client : Worker → Turn → Client → Worker
swap_client w t c =
    if t.normal then to_fast (unlink_normal w t.prevp) c else to_normal (unlink_fast w t.prevp) c

abbrev pub rest_count : Client → Client
rest_count c = record c { fast_count = 0 }

-- `worker_next_client` for the client at `prevp`.
abbrev pub next_at : Worker → Turn → Client → Worker × Turn
next_at w t c =
    if t.normal
    then (if is_fast w c
        then (swap_client w t c, t)
        else (keep_client w t (rest_count c), wait_until (record t { prevp = step_on w t }) c))
    else if is_fast w c
    then (
      keep_client w t (record c { fast_count = c.fast_count + 1 }),
      record t { prevp = step_on w t },
    )
    else (swap_client w t (rest_count c), wait_until t c)

-- `none` where there is no client at `prevp`.
unfoldable pub worker_next_client : Worker → Turn → Option (Worker × Turn)
worker_next_client w t = elim (get_elem? (current w t) t.prevp) [
  | none ↦ none
  | some c ↦ some (next_at w t c)
]

-- `find_least_busy_handler`: the place of the worker with the fewest clients; the first of several.
unfoldable pub least_busy : ℕ → ℕ → ℕ → List Worker → ℕ
least_busy best min at [] = best
least_busy best min at (w ∷ l) =
    let n = w.count + w.pending_count in
    let better = least_busy at n (suc at) l in
    let same = least_busy best min (suc at) l in if ltb n min then better else same

unfoldable pub find_least_busy_handler : List Worker → ℕ
unfolding least_busy
find_least_busy_handler (v ∷ w ∷ l) = least_busy 0 2147483647 0 (v ∷ w ∷ l)
find_least_busy_handler _ = 0

-- `worker_wait`; `woken` says that the wait ended by a write to the control pipe.
unfoldable pub worker_wait : Worker → Turn → Bool → ℕ → Worker × Turn
unfolding worker_add_pending_clients
worker_wait w t woken duration =
    if not w.running
    then (w, record t { prevp = 0; normal = false; normal_after = true })
    else if t.normal && has_clients w.fast_clients
    then (
      w,
      record t { prevp = 0; normal = false; normal_after = t.normal_after || ltb duration 5 },
    )
    else let u : Turn = record t {
      normal_after = t.normal_after || (t.normal && ltb duration 5);
      normal = true;
    } in
      let added : Worker × Turn =
        if t.normal && woken then worker_add_pending_clients w u else (w, u) in
      if has_clients added.0.fast_clients
      then (added.0, record added.1 { normal = false; prevp = 0; sched_ms = 0 })
      else (
        added.0,
        record added.1 { normal_after = false; prevp = 0; normal = true; sched_ms = 0 },
      )

-- The end of the loop of `worker` for a worker that is to stop.
abbrev pub may_end : Worker → Bool
may_end w = not w.running && (w.count == 0) && (w.pending_count == 0)
