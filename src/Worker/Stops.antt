-- ===== src/Worker/Stops.antt =====
-- src/client.c, lines 630 to 651 and 878 to 925: a worker that is to stop.
use mcaster1dnas.Base.{
  ℕ, Bool, Option, Option-cases, ap, arith, false, get_elem?, if-cases, inl, inr, none, not, refl,
  set, some, subst, sym, true, ◌+◌, ◌-◌, ◌<◌, ◌∙◌, ◌≡◌,
}
use mcaster1dnas.Worker.{
  Client, Turn, Worker, current, is_fast, keep_client, may_end, next_at, rest_count, swap_client,
  to_fast, to_normal, unlink_fast, unlink_normal, worker_next_client, worker_removed_client,
  worker_wait,
}

-- What a worker that is to stop goes on with: it passes over clients, removes them, and waits.
pub data Stopping (w : Worker) : Worker → Type 0 where
  stopped : Stopping w w
  passes :
      {v : Worker} (t : Turn) (r : Worker × Turn)
      → Stopping w v
      → worker_next_client v t ≡ some r
      → Stopping w r.0
  removes : {v : Worker} (t : Turn) → Stopping w v → Stopping w (worker_removed_client v t)
  waits :
      {v : Worker} (t : Turn) (woken : Bool) (duration : ℕ)
      → Stopping w v
      → Stopping w (worker_wait v t woken duration).0

-- The two facts that no such step changes.
abbrev Same : Worker → Worker → Type 0
Same w v = (v.running ≡ w.running) × (v.pending_count ≡ w.pending_count)

next_at-Same : (w : Worker) (t : Turn) (c : Client) → Same w (next_at w t c).0
next_at-Same w t c =
    if-cases (λ (r : Worker × Turn). Same w r.0) t.normal _ _
      (λ e.
        if-cases (λ (r : Worker × Turn). Same w r.0) (is_fast w c) _ _ (λ f. swap-Same c)
          (λ f. keep-Same (rest_count c)))
      (λ e.
        if-cases (λ (r : Worker × Turn). Same w r.0) (is_fast w c) _ _
          (λ f. keep-Same (record c { fast_count = c.fast_count + 1 }))
          (λ f. swap-Same (rest_count c)))
  where
    swap-Same : (d : Client) → Same w (swap_client w t d)
    swap-Same d =
        if-cases (Same w) t.normal (to_fast (unlink_normal w t.prevp) d)
          (to_normal (unlink_fast w t.prevp) d) (λ e. (refl, refl)) (λ e. (refl, refl))

    keep-Same : (d : Client) → Same w (keep_client w t d)
    keep-Same d =
        if-cases (Same w) t.normal (record w { clients = set w.clients t.prevp d })
          (record w { fast_clients = set w.fast_clients t.prevp d }) (λ e. (refl, refl))
          (λ e. (refl, refl))

worker_next_client-Same :
    (w : Worker) (t : Turn) (r : Worker × Turn) → worker_next_client w t ≡ some r → Same w r.0
unfolding worker_next_client
worker_next_client-Same w t r e = elim (Option-cases (get_elem? (current w t) t.prevp)) [
  | inl g ↦ absurd (ground arith)
  | inr (c, g) ↦
      let s : Option.some (next_at w t c) ≡ some r =
        ap
          (λ o. elim o as (λ x. Option (Worker × Turn)) [
            | none ↦ none
            | some x ↦ some (next_at w t x)
          ])
          (sym g)
        ∙ e in
      let q : next_at w t c ≡ r = ground arith in subst (λ x. Same w x.0) q (next_at-Same w t c)
]

worker_removed_client-Same : (w : Worker) (t : Turn) → Same w (worker_removed_client w t)
unfolding worker_removed_client
worker_removed_client-Same w t =
    if-cases (λ u. Same w (record u { count = w.count - 1 })) t.normal (unlink_normal w t.prevp)
      (unlink_fast w t.prevp) (λ e. (refl, refl)) (λ e. (refl, refl))

worker_wait-Same :
    (w : Worker) (t : Turn) (woken : Bool) (duration : ℕ)
    → w.running ≡ false
    → Same w (worker_wait w t woken duration).0
unfolding worker_wait
worker_wait-Same w t woken duration e =
    if-cases (λ (r : Worker × Turn). Same w r.0) (not w.running)
      (w, record t { prevp = 0; normal = false; normal_after = true }) _ (λ f. (refl, refl))
      (λ f. absurd (ground arith))

Stopping-Same : {w v : Worker} → w.running ≡ false → Stopping w v → Same w v
Stopping-Same e stopped = (refl, refl)
Stopping-Same e (passes {v} t r s h) =
    let a = Stopping-Same e s in let b = worker_next_client-Same v t r h in (b.0 ∙ a.0, b.1 ∙ a.1)
Stopping-Same e (removes {v} t s) =
    let a = Stopping-Same e s in let b = worker_removed_client-Same v t in (b.0 ∙ a.0, b.1 ∙ a.1)
Stopping-Same e (waits {v} t woken duration s) =
    let a = Stopping-Same e s in
    let b = worker_wait-Same v t woken duration (a.0 ∙ e) in (b.0 ∙ a.0, b.1 ∙ a.1)

-- A worker that is to stop while a client is still pending never ends: none of its steps takes the
-- client in, and the loop ends only without pending clients.
pub Stopping-goes_on :
    {w v : Worker} → w.running ≡ false → 0 < w.pending_count → Stopping w v → may_end v ≡ false
Stopping-goes_on e h s = let a = Stopping-Same e s in ground (arith, a.1)
