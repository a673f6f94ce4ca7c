-- ===== src/Worker/Whole.antt =====
-- src/client.c: what holds of a worker after any number of steps.
use mcaster1dnas.Worker.Tally.{one, IsWorker, held}
use mcaster1dnas.Worker.Kept.{Keeps, next_at-Keeps}
use mcaster1dnas.Base.{
  ℕ, Option, Option-cases, ap, arith, get_elem?, inl, inr, none, refl, some, subst, sym, ◌+◌, ◌∙◌,
  ◌≡◌,
}
use mcaster1dnas.Worker.{
  Turn, Worker, current, new_worker, next_at, worker_add_pending_clients, worker_next_client,
}
use mcaster1dnas.Worker.Lives.{
  Reached, started, added, taken_in, passed, timed, removed, new_worker-IsWorker,
  worker_add_client-held, worker_add_pending_clients-Keeps, worker_removed_client-held,
}

-- The lists of a worker are in order, and have each client as often as `f` says.
pub record Holds (f : ℕ → ℕ) (w : Worker) : Type 0 where
  pub ordered : IsWorker w
  pub all : (n : ℕ) → held n w ≡ f n

Keeps-Holds : (f : ℕ → ℕ) (w v : Worker) → Holds f w → Keeps w v → Holds f v
Keeps-Holds f w v h k = record { ordered = k.ordered; all = λ n. k.same n ∙ h.all n }

worker_next_client-Keeps :
    (w : Worker) (t : Turn) (r : Worker × Turn)
    → IsWorker w
    → worker_next_client w t ≡ some r
    → Keeps w r.0
unfolding worker_next_client
worker_next_client-Keeps w t r i e = elim (Option-cases (get_elem? (current w t) t.prevp)) [
  | inl g ↦ absurd (ground arith)
  | inr (c, g) ↦
      let s : Option.some (next_at w t c) ≡ some r =
        ap
          (λ o. elim o as (λ x. Option (Worker × Turn)) [
            | none ↦ none
            | some x ↦ some (next_at w t x)
          ])
          (sym g)
        ∙ e in
      let q : next_at w t c ≡ r = ground arith in
      subst (λ x. Keeps w x.0) q (next_at-Keeps w t c i g)
]

-- A worker never loses a client nor lists it twice: however clients were added, taken in, passed
-- over and removed, its lists together have each client as often as it was added and not removed.
-- The counts and the ends of the lists are right.
pub Reached-Holds : {f : ℕ → ℕ} {w : Worker} → Reached f w → Holds f w
unfolding new_worker
Reached-Holds started = record { ordered = new_worker-IsWorker; all = λ n. refl }
Reached-Holds (added {f} {w} c r) =
    let h = Reached-Holds r in
    let (i, a) = worker_add_client-held w c h.ordered in
    record { ordered = i; all = λ n. a n ∙ ap (λ k. one n c + k) (h.all n) }
Reached-Holds (taken_in {f} {w} t r) =
    let h = Reached-Holds r in
    Keeps-Holds f w (worker_add_pending_clients w t).0 h
      (worker_add_pending_clients-Keeps w t h.ordered)
Reached-Holds (passed {f} {w} t x r e) =
    let h = Reached-Holds r in Keeps-Holds f w x.0 h (worker_next_client-Keeps w t x h.ordered e)
Reached-Holds (timed {f} {w} ms go r) =
    let h = Reached-Holds r in
    record {
      ordered = record {
        fast_end = h.ordered.fast_end;
        pending_end = h.ordered.pending_end;
        end = h.ordered.end;
        counted = h.ordered.counted;
        pending_counted = h.ordered.pending_counted;
      };
      all = h.all;
    }
Reached-Holds (removed {f} {w} t c r e) =
    let h = Reached-Holds r in
    let (i, a) = worker_removed_client-held w t c h.ordered e in
    record { ordered = i; all = λ n. omega (arith, a n, h.all n) }
