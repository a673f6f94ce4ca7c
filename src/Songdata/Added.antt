-- ===== src/Songdata/Added.antt =====
-- What adding an entry to the song history means, for the ring and for the growing array.
use mcaster1dnas.Base.{
  ℕ, List, Option, ap₂, arith, get_or, refl, some, suc, zero, ◌+◌, ◌<◌, ◌∷◌, ◌≡◌, ◌≤◌,
}
use mcaster1dnas.Songdata.{Entry, History, blank}
use mcaster1dnas.Songdata.Recent.{Inv, collect, recent}
use mcaster1dnas.Songdata.Spec.{bounded}

-- The same entries, one position further on.
pub collect-shift :
    (s r : List Entry) (at to : ℕ → ℕ) (k n : ℕ)
    → ((j : ℕ) → n ≤ j → j < n + k → get_or s (at (j + 1)) blank ≡ get_or r (to j) blank)
    → collect s at k (n + 1) ≡ collect r to k n
unfolding collect
collect-shift s r at to zero n h = refl
collect-shift s r at to (suc k) n h =
    ap₂ (λ x l. x ∷ l) (h n (omega arith) (omega arith))
      (collect-shift s r at to k (n + 1) (λ j p q. h j (omega arith) (omega arith)))

-- What adding an entry makes of a history.
pub data Added (h : History) (e : Entry) (o : Option History) : Type 0 where
  added :
      (g : History)
      → o ≡ some g
      → Inv g
      → g.limit ≡ h.limit
      → recent g ≡ bounded h.limit (e ∷ recent h)
      → Added h e o
