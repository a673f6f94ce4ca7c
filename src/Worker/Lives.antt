-- ===== src/Worker/Lives.antt =====
-- src/client.c: the clients of a worker over any number of steps.
use mcaster1dnas.Worker.Kept.{
  Keeps, length_more, end_without-length, in_normal, length-link, tally-link, in_fast,
}
use mcaster1dnas.Worker.Tally.{
  one, IsWorker, held, link_end, tally, tally-append, length-unlink, tally-unlink,
}
use mcaster1dnas.Base.{
  ℕ, Bool, ap, arith, get_elem?, if-cases, length, length-append, refl, some, ◌++◌, ◌+◌, ◌-◌, ◌∙◌,
  ◌≡◌,
}
use mcaster1dnas.Worker.{
  Client, Turn, Worker, current, has_clients, link, new_worker, unlink_fast, unlink_normal,
  worker_add_client, worker_add_pending_clients, worker_next_client, worker_removed_client,
}

-- The clients that were added and not removed, counted by their numbers, and the worker.
pub data Reached : (ℕ → ℕ) → Worker → Type 0 where
  started : Reached (λ n. 0) new_worker
  added :
      {f : ℕ → ℕ} {w : Worker} (c : Client)
      → Reached f w
      → Reached (λ n. one n c + f n) (worker_add_client w c)
  taken_in :
      {f : ℕ → ℕ} {w : Worker} (t : Turn)
      → Reached f w
      → Reached f (worker_add_pending_clients w t).0
  passed :
      {f : ℕ → ℕ} {w : Worker} (t : Turn) (r : Worker × Turn)
      → Reached f w
      → worker_next_client w t ≡ some r
      → Reached f r.0
  timed :
      {f : ℕ → ℕ} {w : Worker} (ms : ℕ) (go : Bool)
      → Reached f w
      → Reached f (record w { time_ms = ms; running = go })
  removed :
      {f : ℕ → ℕ} {w : Worker} (t : Turn) (c : Client)
      → Reached f w
      → get_elem? (current w t) t.prevp ≡ some c
      → Reached (λ n. f n - one n c) (worker_removed_client w t)

pub new_worker-IsWorker : IsWorker new_worker
unfolding new_worker
new_worker-IsWorker = record {
  fast_end = refl;
  pending_end = refl;
  end = refl;
  counted = refl;
  pending_counted = refl;
}

pub worker_add_client-held :
    (w : Worker) (c : Client)
    → IsWorker w
    → IsWorker (worker_add_client w c)
      × ((n : ℕ) → held n (worker_add_client w c) ≡ one n c + held n w)
unfolding worker_add_client
worker_add_client-held w c i = (
  record {
    fast_end = i.fast_end;
    pending_end = length_more w.pending_clients w.pending_tail c i.pending_end;
    end = i.end;
    counted = i.counted;
    pending_counted =
        omega
          (arith, i.pending_counted, length-link w.pending_clients w.pending_tail c i.pending_end);
  },
  λ n. omega (arith, tally-link n w.pending_clients w.pending_tail c i.pending_end),
)

pub worker_add_pending_clients-Keeps :
    (w : Worker) (t : Turn) → IsWorker w → Keeps w (worker_add_pending_clients w t).0
unfolding worker_add_pending_clients
worker_add_pending_clients-Keeps w t i =
    let e : link w.fast_clients w.fast_tail w.pending_clients
        ≡ w.fast_clients ++ w.pending_clients =
      link_end w.fast_clients w.fast_tail w.pending_clients i.fast_end in
    let len : length (link w.fast_clients w.fast_tail w.pending_clients)
        ≡ length w.fast_clients + length w.pending_clients =
      ap length e ∙ length-append w.fast_clients w.pending_clients in
    if-cases (λ (r : Worker × Turn). Keeps w r.0) (has_clients w.pending_clients) _ (w, t)
      (λ h. record {
        ordered = record {
          fast_end = omega (arith, i.fast_end, i.pending_end, len);
          pending_end = refl;
          end = i.end;
          counted = omega (arith, i.counted, i.pending_counted, len);
          pending_counted = refl;
        };
        same = λ n. omega (arith, ap (tally n) e, tally-append n w.fast_clients w.pending_clients);
      })
      (λ h. record { ordered = i; same = λ n. refl })

pub worker_removed_client-held :
    (w : Worker) (t : Turn) (c : Client)
    → IsWorker w
    → get_elem? (current w t) t.prevp ≡ some c
    → IsWorker (worker_removed_client w t)
      × ((n : ℕ) → held n (worker_removed_client w t) + one n c ≡ held n w)
unfolding worker_removed_client
worker_removed_client-held w t c i g =
    if-cases
      (λ u. IsWorker (record u { count = w.count - 1 }) × ((n : ℕ) → held n u + one n c ≡ held n w))
      t.normal (unlink_normal w t.prevp) (unlink_fast w t.prevp)
      (λ e. (
        record {
          fast_end = i.fast_end;
          pending_end = i.pending_end;
          end = end_without-length w.clients w.last t.prevp c i.end (in_normal w t c i g e);
          counted =
              omega (arith, i.counted, length-unlink t.prevp w.clients c (in_normal w t c i g e));
          pending_counted = i.pending_counted;
        },
        λ n. omega (arith, tally-unlink n t.prevp w.clients c (in_normal w t c i g e)),
      ))
      (λ e. (
        record {
          fast_end =
              end_without-length w.fast_clients w.fast_tail t.prevp c i.fast_end
                (in_fast w t c i g e);
          pending_end = i.pending_end;
          end = i.end;
          counted =
              omega
                (arith, i.counted, length-unlink t.prevp w.fast_clients c (in_fast w t c i g e));
          pending_counted = i.pending_counted;
        },
        λ n. omega (arith, tally-unlink n t.prevp w.fast_clients c (in_fast w t c i g e)),
      ))
