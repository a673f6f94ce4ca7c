-- ===== src/Worker/Least.antt =====
-- src/client.c, lines 448 to 474: which worker is the least busy.
use mcaster1dnas.Source.Blocks.{drop-suc, get-drop}
use mcaster1dnas.Base.{
  ℕ, All, Bool-cases, List, [], arith, drop, get_elem?, inl, inr, ltb, ltb→lt, lt→ltb, min, refl,
  some, suc, true, ◌+◌, ◌<◌, ◌∷◌, ◌≡◌, ◌≤◌,
}
use mcaster1dnas.Worker.{Worker, find_least_busy_handler, least_busy}

-- The number of clients of a worker.
abbrev pub load_of : Worker → ℕ
load_of w = w.count + w.pending_count

least_busy-least :
    (l : List Worker) (all : List Worker) (best min at : ℕ)
    → (drop at all ≡ l)
    → ((b : Worker) × (get_elem? all best ≡ some b) × (load_of b ≡ min))
    → (b : Worker) × (get_elem? all (least_busy best min at l) ≡ some b)
      × (load_of b ≤ min)
      × All (λ w. load_of b ≤ load_of w) l
unfolding least_busy
least_busy-least [] all best min at e (b, g, m) = (b, g, omega arith, tt)
least_busy-least (w ∷ l) all best min at e (b, g, m) = elim (Bool-cases (ltb (load_of w) min)) [
  | inl t ↦
      let (x, p, q, r) =
        least_busy-least l all at (load_of w) (suc at) (drop-suc at all w l e)
          (w, get-drop at all w l e, refl) in
      rw t (x, p, omega (arith, ltb→lt _ _ t), (q, r))
  | inr t ↦
      let (x, p, q, r) =
        least_busy-least l all best min (suc at) (drop-suc at all w l e) (b, g, m) in
      rw t (x, p, q, (ground arith, r))
]

-- Of two workers or more, of which the first has fewer than 2147483647 clients, the one that is
-- found has no more clients than any other.
pub find_least_busy_handler-least :
    (v w : Worker) (l : List Worker)
    → load_of v < 2147483647
    → (b : Worker) × (get_elem? (v ∷ w ∷ l) (find_least_busy_handler (v ∷ w ∷ l)) ≡ some b)
      × All (λ x. load_of b ≤ load_of x) (v ∷ w ∷ l)
unfolding find_least_busy_handler least_busy
find_least_busy_handler-least v w l h =
    let t : ltb (load_of v) 2147483647 ≡ true = lt→ltb _ _ h in
    let (b, p, q, r) = least_busy-least (w ∷ l) (v ∷ w ∷ l) 0 (load_of v) 1 refl (v, refl, refl) in
    rw t (b, p, (q, r))
