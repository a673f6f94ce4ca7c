-- ===== src/Songdata/Recent.antt =====
-- The invariant of the song history, and the list of its entries that it stands for.
use mcaster1dnas.Base.{
  ℕ, List, [], arith, get_or, if◌then◌else◌, length, length-replicate, ltb, some, suc, zero, ◌+◌,
  ◌-◌, ◌<◌, ◌∷◌, ◌≡◌, ◌≤◌, ap, ◌∙◌,
}
use mcaster1dnas.Songdata.{init, Entry, History, blank, newest_idx, wrap}

-- The ring is as long as its limit, and fills from the start of the array; without a limit the
-- array has a length that can be doubled.
pub record Inv (h : History) : Type 0 where
  pub slots_len : length h.slots ≡ h.len
  pub used_le : h.used ≤ h.len
  pub len_pos : 0 < h.len
  pub ring_len : 0 < h.limit → h.len ≡ h.limit
  pub head_lt : 0 < h.limit → h.head < h.len
  pub filling : 0 < h.limit → h.used < h.len → h.head ≡ h.used

-- The index of the `n`-th newest entry.
abbrev pub place : History → ℕ → ℕ
place h n =
    if ltb 0 h.limit
    then (if ltb n h.head then h.head - 1 - n else h.head + h.len - 1 - n)
    else h.used - 1 - n

wrap_ring :
    (f head n len : ℕ)
    → n < len
    → wrap (suc (suc f)) head (n + 1) len
      ≡ some (if ltb n head then head - 1 - n else head + len - 1 - n)
unfolding wrap
wrap_ring f head n len h = ground arith

wrap_place :
    (head n len : ℕ)
    → n < len
    → wrap (n + 2) head (n + 1) len ≡ some (if ltb n head then head - 1 - n else head + len - 1 - n)
wrap_place head n len h =
    let e : n + 2 ≡ suc (suc n) = omega arith in
    ap (λ f. wrap f head (n + 1) len) e ∙ wrap_ring n head n len h

-- `newest_idx` finds a place in the array for each entry in use: its loop ends.
pub newest_idx-place :
    (h : History) (n : ℕ)
    → Inv h
    → n < h.used
    → (newest_idx h n ≡ some (place h n)) × (place h n < length h.slots)
unfolding newest_idx
newest_idx-place h n v k = (ground (arith, wrap_place h.head n h.len), ground arith)

-- Different entries stand at different places.
pub place-injective :
    (h : History) (m n : ℕ) → Inv h → m < h.used → n < h.used → place h m ≡ place h n → m ≡ n
place-injective h m n v p q e = ground arith

-- The `k` entries from the `n`-th newest on.
unfoldable pub collect : List Entry → (ℕ → ℕ) → ℕ → ℕ → List Entry
collect s at zero n = []
collect s at (suc k) n = get_or s (at n) blank ∷ collect s at k (n + 1)

-- The entries in use, newest first.
abbrev pub recent : History → List Entry
recent h = collect h.slots (place h) h.used 0

init-Inv : (limit : ℕ) → Inv (init limit)
unfolding init
init-Inv limit = record {
  slots_len = length-replicate _ blank;
  used_le = omega arith;
  len_pos = ground arith;
  ring_len = ground arith;
  head_lt = ground arith;
  filling = ground arith;
}
