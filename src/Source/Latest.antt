-- ===== src/Source/Latest.antt =====
-- src/source.c, lines 788 to 812: which block new listeners start with.
use mcaster1dnas.Source.Growth.{IsQueue, from-drop}
use mcaster1dnas.Source.Blocks.{total, rest, rest_le, rest-suc, drop-suc, get-drop, drop-lt}
use mcaster1dnas.Base.{
  ℕ, Bool-cases, List, [], arith, drop, get_elem?, if-cases, if◌then◌else◌, inl, inr, length, ltb,
  ltb→lt, some, subst, suc, true, ◌<◌, ◌∷◌, ◌≡◌, ◌≤◌, ◌⊎◌, Option, ap, length-drop, refl, sym, ◌==◌,
  ◌∙◌,
}
use mcaster1dnas.Source.{Block, find_min, sub64, Queue, move_min}

-- A block that is marked as a start, with more than `size` bytes from it on, and not the last one.
pub record IsStart (all : List Block) (size k : ℕ) : Type 0 where
  pub block : Block
  pub at : get_elem? all k ≡ some block
  pub sync : block.sync ≡ true
  pub more : size < rest all k
  pub later : suc k < length all

-- The first component of a result is the old one or such a block.
abbrev Chosen : List Block → ℕ → ℕ → ℕ × ℕ → Type 0
Chosen all size old m = (m.0 ≡ old) ⊎ IsStart all size m.0

module _ (all : List Block) (size : ℕ) (fits : total all < 18446744073709551616) where
  off-suc :
      (ref : ℕ) (b : Block) (l : List Block) (off : ℕ)
      → drop ref all ≡ b ∷ l
      → off ≡ rest all ref
      → sub64 off b.len ≡ rest all (suc ref)
  off-suc ref b l off e o = omega (arith, rest-suc all ref b l e, rest_le all 0 ref (omega arith))

  find_min-Chosen :
      (l : List Block) (off ref old : ℕ) (found : ℕ × ℕ)
      → drop ref all ≡ l
      → off ≡ rest all ref
      → Chosen all size old found
      → Chosen all size old (find_min size off ref found l)
  unfolding find_min
  find_min-Chosen [] off ref old found e o c = c
  find_min-Chosen (b ∷ []) off ref old found e o c = c
  find_min-Chosen (b ∷ d ∷ l) off ref old found e o c =
      if-cases (Chosen all size old) (ltb size off) _ found
        (λ t.
          find_min-Chosen (d ∷ l) (sub64 off b.len) (suc ref) old
            (if b.sync then (ref, off) else found) (drop-suc ref all b (d ∷ l) e)
            (off-suc ref b (d ∷ l) off e o)
            (if-cases (Chosen all size old) b.sync (ref, off) found
              (λ s. inr (record {
                block = b;
                at = get-drop ref all b (d ∷ l) e;
                sync = s;
                more = subst (λ n. size < n) o (ltb→lt _ _ t);
                later = omega (arith, drop-lt ref all b (d ∷ l) e);
              }))
              (λ s. c)))
        (λ t. c)

  -- What is found lies no earlier than what was found before.
  find_min_le :
      (l : List Block) (off ref : ℕ) (found : ℕ × ℕ)
      → found.0 ≤ ref
      → found.0 ≤ (find_min size off ref found l).0
  unfolding find_min
  find_min_le [] off ref found h = omega arith
  find_min_le (b ∷ []) off ref found h = omega arith
  find_min_le (b ∷ d ∷ l) off ref found h =
      if-cases (λ (m : ℕ × ℕ). found.0 ≤ m.0) (ltb size off) _ found
        (λ t. elim (Bool-cases b.sync) [
          | inl s ↦ rw s (
              omega (
                arith,
                h,
                find_min_le (d ∷ l) (sub64 off b.len) (suc ref) (ref, off) (omega arith),
              ))
          | inr s ↦ rw s (find_min_le (d ∷ l) (sub64 off b.len) (suc ref) found (omega arith))
        ])
        (λ t. omega arith)

  start-sync :
      (ref j : ℕ) (b : Block) (l : List Block)
      → drop ref all ≡ b ∷ l
      → ref ≡ j
      → IsStart all size j
      → b.sync ≡ true
  start-sync ref j b l e p s =
      let m : Option.some s.block ≡ some b =
        sym s.at ∙ ap (get_elem? all) (sym p) ∙ get-drop ref all b l e in
      let n : s.block ≡ b = ground arith in ap (λ (x : Block). x.sync) (sym n) ∙ s.sync

  find_min-latest :
      (l : List Block) (off ref j : ℕ) (found : ℕ × ℕ)
      → drop ref all ≡ l
      → off ≡ rest all ref
      → ref ≤ j
      → IsStart all size j
      → j ≤ (find_min size off ref found l).0
  unfolding find_min
  find_min-latest [] off ref j found e o h s =
      absurd (omega (arith, ap length e, length-drop ref all, s.later))
  find_min-latest (b ∷ []) off ref j found e o h s =
      absurd (omega (arith, ap length e, length-drop ref all, s.later))
  find_min-latest (b ∷ d ∷ l) off ref j found e o h s =
      if-cases (λ (m : ℕ × ℕ). j ≤ m.0) (ltb size off) _ found
        (λ t. elim (Bool-cases (ref == j)) [
          | inl p ↦
              let m : b.sync ≡ true = start-sync ref j b (d ∷ l) e (ground arith) s in
              let same : ref ≡ j = ground arith in
              rw m (
                omega (
                  arith,
                  same,
                  find_min_le (d ∷ l) (sub64 off b.len) (suc ref) (ref, off) (omega arith),
                ))
          | inr p ↦
              find_min-latest (d ∷ l) (sub64 off b.len) (suc ref) j
                (if b.sync then (ref, off) else found) (drop-suc ref all b (d ∷ l) e)
                (off-suc ref b (d ∷ l) off e o) (ground arith) s
        ])
        (λ t. absurd (ground (arith, rest_le all ref j h, s.more)))

-- After the search the starting point is the last block, of those from the old one on and not the
-- tail, that is marked as a start and has more than `min_queue_size` bytes from it on. It stays
-- where it was if there is none.
pub move_min-latest :
    (all : List Block) (q : Queue)
    → IsQueue all q
    → (((move_min q).min_queue_point ≡ q.min_queue_point)
        ⊎ IsStart all q.min_queue_size (move_min q).min_queue_point)
      × ((j : ℕ)
          → q.min_queue_point ≤ j
          → IsStart all q.min_queue_size j
          → j ≤ (move_min q).min_queue_point)
unfolding move_min
move_min-latest all q v =
    let d = sym (from-drop all q q.min_queue_point v.holds v.holds.point_ge) in
    (
      find_min-Chosen all q.min_queue_size v.position_fits _ q.min_queue_offset q.min_queue_point
          q.min_queue_point (q.min_queue_point, q.min_queue_offset) d v.holds.offset (inl refl),
      λ j h s.
          find_min-latest all q.min_queue_size v.position_fits _ q.min_queue_offset
            q.min_queue_point j (q.min_queue_point, q.min_queue_offset) d v.holds.offset h s,
    )
