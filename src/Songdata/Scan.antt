-- ===== src/Songdata/Scan.antt =====
-- The loops of songdata_push and songdata_get_xml over the entries, newest first.
use mcaster1dnas.Base.{
  ℕ, Bytes, List, Option, [], arith, get_elem?, get_or, length, refl, some, suc, zero, ◌+◌, ◌<◌,
  ◌∷◌, ◌≡◌, Bool-cases, ap, ap₂, if◌then◌else◌, inl, inr, length-set, none, set, ◌∙◌, ◌≢◌, ◌≤◌,
  false,
}
use mcaster1dnas.Songdata.{
  History, blank, snapshot, snapshot_from, Entry, Outcome, end_entry, is_str, proceed, scan, skip,
  wanted,
}
use mcaster1dnas.Songdata.Recent.{Inv, collect, newest_idx-place, place, recent, place-injective}
use mcaster1dnas.Songdata.Spec.{spec_snapshot, mark}

get_elem?-eq-get_or {ℓ} :
    {A : Type ℓ} (s : List A) (i : ℕ) (d : A) → i < length s → get_elem? s i ≡ some (get_or s i d)
get_elem?-eq-get_or [] i d h = absurd (omega arith)
get_elem?-eq-get_or (x ∷ s) zero d h = refl
get_elem?-eq-get_or (x ∷ s) (suc i) d h = get_elem?-eq-get_or s i d (omega arith)

snapshot_from-step :
    (k n : ℕ) (h : History) (filter : Option Bytes)
    → Inv h
    → n < h.used
    → snapshot_from (suc k) n h filter ≡ elim (snapshot_from k (n + 1) h filter) [
      | none ↦ none
      | some l ↦ some (
          if wanted filter (get_or h.slots (place h n) blank)
          then get_or h.slots (place h n) blank ∷ l
          else l)
    ]
unfolding snapshot_from
snapshot_from-step k n h filter v p = rw (
  (newest_idx-place h n v p).0,
  get_elem?-eq-get_or h.slots (place h n) blank (newest_idx-place h n v p).1,
  snapshot_from,
)

snapshot_from-collect :
    (k n : ℕ) (h : History) (filter : Option Bytes)
    → Inv h
    → n + k ≡ h.used
    → snapshot_from k n h filter ≡ some (spec_snapshot filter (collect h.slots (place h) k n))
unfolding snapshot_from spec_snapshot collect
snapshot_from-collect zero n h filter v e = refl
snapshot_from-collect (suc k) n h filter v e =
    snapshot_from-step k n h filter v (omega arith)
    ∙ rw (snapshot_from-collect k (n + 1) h filter v (omega arith)) (ground arith)

pub snapshot-recent :
    (h : History) (filter : Option Bytes)
    → Inv h
    → snapshot h filter ≡ some (spec_snapshot filter (recent h))
unfolding snapshot
snapshot-recent h filter v = snapshot_from-collect h.used 0 h filter v (omega arith)

pub get_or-set_self {ℓ} :
    {A : Type ℓ} (s : List A) (i : ℕ) (a d : A) → i < length s → get_or (set s i a) i d ≡ a
get_or-set_self [] i a d h = absurd (omega arith)
get_or-set_self (x ∷ s) zero a d h = refl
get_or-set_self (x ∷ s) (suc i) a d h = get_or-set_self s i a d (omega arith)

pub get_or-set_ne {ℓ} :
    {A : Type ℓ} (s : List A) (i j : ℕ) (a d : A) → i ≢ j → get_or (set s i a) j d ≡ get_or s j d
get_or-set_ne [] i j a d h = refl
get_or-set_ne (x ∷ s) zero zero a d h = absurd (h refl)
get_or-set_ne (x ∷ s) zero (suc j) a d h = refl
get_or-set_ne (x ∷ s) (suc i) zero a d h = refl
get_or-set_ne (x ∷ s) (suc i) (suc j) a d h = get_or-set_ne s i j a d (λ e. h (ap suc e))

-- A write at a place that the entries from the `n`-th newest on do not use.
pub collect-set :
    (s : List Entry) (at : ℕ → ℕ) (i : ℕ) (a : Entry) (k n : ℕ)
    → ((j : ℕ) → n ≤ j → j < n + k → i ≢ at j)
    → collect (set s i a) at k n ≡ collect s at k n
unfolding collect
collect-set s at i a zero n h = refl
collect-set s at i a (suc k) n h =
    ap₂ (λ x l. x ∷ l) (get_or-set_ne s i (at n) a blank (h n (omega arith) (omega arith)))
      (collect-set s at i a k (n + 1) (λ j p q. h j (omega arith) (omega arith)))

-- How the loop of `songdata_push` ends, against the entries that it walks: `marked` is what the
-- specification makes of them.
pub data Scanned (k n : ℕ) (h : History) (o : Outcome) (marked : Option (List Entry)) : Type 0 where
  repeated : o ≡ skip → marked ≡ none → Scanned k n h o marked
  written :
      (s : List Entry) (l : List Entry)
      → o ≡ proceed (record h { slots = s })
      → marked ≡ some l
      → length s ≡ length h.slots
      → collect s (place h) k n ≡ l
      → ((j : ℕ) → j < n → get_or s (place h j) blank ≡ get_or h.slots (place h j) blank)
      → Scanned k n h o marked

module _ (m t : Bytes) (now : ℕ) (h : History) (v : Inv h) where
  -- The entry at `n`, as the loop reads it.
  abbrev entry_at : ℕ → Entry
  entry_at n = get_or h.slots (place h n) blank

  scan-step :
      (k n : ℕ)
      → n < h.used
      → scan (suc k) n h m t now ≡ (
          if is_str (entry_at n).mount m
          then (if is_str (entry_at n).title t
              then skip
              else proceed
                  (record h { slots = set h.slots (place h n) (end_entry (entry_at n) now) }))
          else scan k (n + 1) h m t now)
  unfolding scan
  scan-step k n p = rw (
    (newest_idx-place h n v p).0,
    get_elem?-eq-get_or h.slots (place h n) blank (newest_idx-place h n v p).1,
    scan,
  )

  onward :
      (k n : ℕ)
      → n < h.used
      → is_str (entry_at n).mount m ≡ false
      → Scanned k
          (n + 1)
          h
          (scan k (n + 1) h m t now)
          (mark m t now (collect h.slots (place h) k (n + 1)))
      → Scanned
          (suc k)
          n
          h
          (scan (suc k) n h m t now)
          (mark m t now (collect h.slots (place h) (suc k) n))
  unfolding collect mark
  onward k n p miss (repeated e f) = repeated (scan-step k n p ∙ rw miss e) (rw (miss, f, mark))
  onward k n p miss (written s l e f len c before) =
      written s (entry_at n ∷ l) (scan-step k n p ∙ rw miss e) (rw (miss, f, mark)) len
        (ap₂ (λ x r. x ∷ r) (before n (omega arith)) c) (λ j q. before j (omega arith))

  pub scan-mark :
      (k n : ℕ)
      → n + k ≡ h.used
      → Scanned k n h (scan k n h m t now) (mark m t now (collect h.slots (place h) k n))
  unfolding collect mark
  scan-mark zero n e = written h.slots [] (unfold scan in refl) refl refl refl (λ j p. refl)
  scan-mark (suc k) n e = elim (Bool-cases (is_str (entry_at n).mount m)) [
    | inl hit ↦ elim (Bool-cases (is_str (entry_at n).title t)) [
      | inl same ↦ repeated (scan-step k n (omega arith) ∙ rw (hit, same)) (rw (hit, same))
      | inr other ↦
          written (set h.slots (place h n) (end_entry (entry_at n) now))
            (end_entry (entry_at n) now ∷ collect h.slots (place h) k (n + 1))
            (scan-step k n (omega arith) ∙ rw (hit, other)) (rw (hit, other))
            (length-set h.slots (place h n) (end_entry (entry_at n) now))
            (ap₂ (λ x l. x ∷ l)
              (get_or-set_self h.slots (place h n) (end_entry (entry_at n) now) blank
                (newest_idx-place h n v (omega arith)).1)
              (collect-set h.slots (place h) (place h n) (end_entry (entry_at n) now) k (n + 1)
                (λ j p q r.
                  absurd (omega (arith, place-injective h n j v (omega arith) (omega arith) r)))))
            (λ j p.
              get_or-set_ne h.slots (place h n) (place h j) (end_entry (entry_at n) now) blank
                (λ r. omega (arith, place-injective h n j v (omega arith) (omega arith) r)))
    ]
    | inr miss ↦ onward k n (omega arith) miss (scan-mark k (n + 1) (omega arith))
  ]
