-- ===== src/Songdata/Ring.antt =====
-- Adding an entry to the ring: songdata_push with a limit.
use mcaster1dnas.Base.{
  ℕ, Bool-cases, List, ap, ap₂, arith, get_or, if◌then◌else◌, inl, inr, length, length-set, ltb,
  ltb→lt, lt→ltb, min, refl, set, suc, sym, take, zero, ◌%◌, ◌+◌, ◌-◌, ◌<◌, ◌∙◌, ◌∷◌, ◌≡◌, ◌≢◌, ◌≤◌,
}
use mcaster1dnas.Songdata.{Entry, History, add_entry, blank}
use mcaster1dnas.Songdata.Recent.{Inv, collect, place, recent}
use mcaster1dnas.Songdata.Spec.{bounded}
use mcaster1dnas.Songdata.Scan.{get_or-set_ne, get_or-set_self}
use mcaster1dnas.Songdata.Added.{Added, added, collect-shift}
use native.Mathlib.Nat.{mod-eq_of_lt, mod_self}

take-collect :
    (i : ℕ) (s : List Entry) (at : ℕ → ℕ) (k n : ℕ)
    → take i (collect s at k n) ≡ collect s at (min i k) n
unfolding collect
take-collect zero s at k n = let e : min 0 k ≡ 0 = omega arith in rw e
take-collect (suc i) s at zero n = let e : min (suc i) 0 ≡ 0 = omega arith in rw e
take-collect (suc i) s at (suc k) n =
    let e : min (suc i) (suc k) ≡ suc (min i k) = omega arith in
    rw e (ap (λ l. get_or s (at n) blank ∷ l) (take-collect i s at k (n + 1)))

next_head :
    (head len : ℕ) → head < len → (head + 1) % len ≡ (if ltb (head + 1) len then head + 1 else 0)
next_head head len h = elim (Bool-cases (ltb (head + 1) len)) [
  | inl p ↦ rw p (mod-eq_of_lt (ltb→lt _ _ p))
  | inr p ↦ let e : head + 1 ≡ len = ground arith in rw (p, e) (mod_self len)
]

module _ (h : History) (e : Entry) (v : Inv h) (ring : 0 < h.limit) where
  abbrev pub after_ring : History
  after_ring = record h {
    head = (h.head + 1) % h.len;
    used = if ltb h.used h.len then h.used + 1 else h.used;
    slots = set h.slots h.head e;
  }

  after_ring-Inv : Inv after_ring
  after_ring-Inv = record {
    slots_len = length-set h.slots h.head e ∙ v.slots_len;
    used_le = ground arith;
    len_pos = v.len_pos;
    ring_len = v.ring_len;
    head_lt = λ p. omega arith;
    filling = λ p q. ground (arith, next_head h.head h.len (v.head_lt ring));
  }

  place-zero : place after_ring 0 ≡ h.head
  place-zero = ground (arith, next_head h.head h.len (v.head_lt ring))

  place-suc : (j : ℕ) → j + 1 < h.len → place after_ring (j + 1) ≡ place h j
  place-suc j p = ground (arith, next_head h.head h.len (v.head_lt ring))

  place-ne-head : (j : ℕ) → j < h.used → j + 1 < h.len → h.head ≢ place h j
  place-ne-head j p q = ground arith

  abbrev kept : ℕ
  kept = min (h.limit - 1) h.used

  used-kept : after_ring.used ≡ suc kept
  used-kept = ground arith

  recent-after_ring : recent after_ring ≡ bounded h.limit (e ∷ recent h)
  unfolding collect bounded
  recent-after_ring =
      ap (λ k. collect after_ring.slots (place after_ring) k 0) used-kept
      ∙ ap₂ (λ x l. x ∷ l) newest
          (collect-shift after_ring.slots h.slots (place after_ring) (place h) kept 0 older)
      ∙ sym bounded_ring
    where
      newest : get_or after_ring.slots (place after_ring 0) blank ≡ e
      newest =
          ap (λ i. get_or after_ring.slots i blank) place-zero
          ∙ get_or-set_self h.slots h.head e blank (omega (arith, v.slots_len, v.head_lt ring))

      older :
          (j : ℕ)
          → 0 ≤ j
          → j < 0 + kept
          → get_or after_ring.slots (place after_ring (j + 1)) blank
            ≡ get_or h.slots (place h j) blank
      older j p q =
          ap (λ i. get_or after_ring.slots i blank) (place-suc j (omega (arith, v.ring_len ring)))
          ∙ get_or-set_ne h.slots h.head (place h j) e blank
              (place-ne-head j (omega arith) (omega (arith, v.ring_len ring)))

      bounded_ring : bounded h.limit (e ∷ recent h) ≡ e ∷ collect h.slots (place h) kept 0
      bounded_ring = rw (lt→ltb 0 h.limit ring) (
          let k : h.limit ≡ suc (h.limit - 1) = omega arith in
          ap (λ i. take i (e ∷ recent h)) k
          ∙ ap (λ l. e ∷ l) (take-collect (h.limit - 1) h.slots (place h) h.used 0))

  pub add_entry-ring : Added h e (add_entry h e)
  unfolding add_entry
  add_entry-ring =
      added after_ring
        (rw (
          lt→ltb 0 h.limit ring,
          lt→ltb h.head (length h.slots) (omega (arith, v.slots_len, v.head_lt ring)),
        ))
        after_ring-Inv refl recent-after_ring
