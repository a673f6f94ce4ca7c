-- ===== src/Worker/Tests.antt =====
-- Workers with concrete clients.
use mcaster1dnas.Worker.Least.{load_of, find_least_busy_handler-least}
use mcaster1dnas.Worker.Tally.{one}
use mcaster1dnas.Worker.Whole.{Holds, Reached-Holds}
use mcaster1dnas.Base.{All, [], arith, false, get_elem?, refl, some, true, ◌+◌, ◌∷◌, ◌≡◌, ◌≤◌}
use mcaster1dnas.Worker.{
  Client, Turn, Worker, find_least_busy_handler, may_end, new_worker, worker_add_client,
  worker_add_pending_clients, worker_next_client, worker_wait,
}
use mcaster1dnas.Worker.Lives.{Reached, started, added, taken_in, passed, timed}
use mcaster1dnas.Worker.Stops.{stopped, waits, Stopping-goes_on}

abbrev early : Client
early = record { number = 1; schedule_ms = 5; fast_count = 0 }

abbrev late : Client
late = record { number = 2; schedule_ms = 500; fast_count = 0 }

abbrev start_turn : Turn
start_turn = record {
  prevp = 0;
  normal = false;
  normal_after = false;
  wakeup_ms = 1000;
  sched_ms = 0;
}

-- A worker that took in two clients and passed over the first.
abbrev busy : Worker
busy = record {
  running = true;
  count = 2;
  pending_count = 0;
  time_ms = 100;
  fast_clients = record { number = 1; schedule_ms = 5; fast_count = 1 } ∷ late ∷ [];
  fast_tail = 2;
  pending_clients = [];
  pending_tail = 0;
  clients = [];
  last = 0;
}

busy-Reached : Reached (λ n. one n late + (one n early + 0)) busy
unfolding new_worker worker_add_client worker_add_pending_clients worker_next_client
busy-Reached =
    passed start_turn (busy, record start_turn { prevp = 1 })
      (timed 100 true (taken_in start_turn (added late (added early started)))) refl

Reached-Holds_example : Holds (λ n. one n late + (one n early + 0)) busy
Reached-Holds_example = Reached-Holds busy-Reached

abbrev idle : Worker
idle = record busy { count = 1; fast_clients = early ∷ []; fast_tail = 1 }

find_least_busy_handler-least_example :
    (b : Worker) × (get_elem? (busy ∷ idle ∷ []) (find_least_busy_handler (busy ∷ idle ∷ []))
      ≡ some b)
    × All (λ x. load_of b ≤ load_of x) (busy ∷ idle ∷ [])
find_least_busy_handler-least_example = find_least_busy_handler-least busy idle [] (omega arith)

-- A worker that is to stop, without clients but with one that is pending.
abbrev ending : Worker
ending = record busy {
  running = false;
  count = 0;
  pending_count = 1;
  fast_clients = [];
  fast_tail = 0;
  pending_clients = early ∷ [];
  pending_tail = 1;
}

Stopping-goes_on_example : may_end (worker_wait ending start_turn true 1).0 ≡ false
Stopping-goes_on_example =
    Stopping-goes_on {w = ending} refl (omega arith) (waits start_turn true 1 stopped)
