-- ===== src/Songdata/Grow.antt =====
-- Adding an entry to the growing array: songdata_push without a limit.
use mcaster1dnas.Base.{
  ℕ, Bool-cases, List, [], ap, ap₂, arith, false, get_or, inl, inr, leb, length, length-append,
  length-replicate, length-set, ltb, lt→ltb, refl, replicate, set, suc, sym, zero, ◌*◌, ◌++◌, ◌+◌,
  ◌-◌, ◌<◌, ◌∙◌, ◌∷◌, ◌≡◌, ◌≤◌,
}
use mcaster1dnas.Songdata.{Entry, History, add_entry, blank, grown}
use mcaster1dnas.Songdata.Recent.{Inv, collect, place, recent}
use mcaster1dnas.Songdata.Spec.{bounded}
use mcaster1dnas.Songdata.Scan.{get_or-set_ne, get_or-set_self}
use mcaster1dnas.Songdata.Added.{Added, added, collect-shift}

get_or-append {ℓ} :
    {A : Type ℓ} (s r : List A) (i : ℕ) (d : A) → i < length s → get_or (s ++ r) i d ≡ get_or s i d
get_or-append [] r i d h = absurd (omega arith)
get_or-append (x ∷ s) r zero d h = refl
get_or-append (x ∷ s) r (suc i) d h = get_or-append s r i d (omega arith)

module _ (h : History) (e : Entry) (v : Inv h) (free : h.limit ≡ 0) where
  abbrev after_array : History
  after_array = record (grown h) { used = h.used + 1; slots = set (grown h).slots h.used e }

  grown-room : (length (grown h).slots ≡ (grown h).len) × (h.used < (grown h).len)
  grown-room = elim (Bool-cases (leb h.len h.used)) [
    | inl full ↦ rw full (
      omega (
        arith,
        length-append h.slots (replicate (h.len * 2 - h.len) blank),
        length-replicate (h.len * 2 - h.len) blank,
        v.slots_len,
        v.len_pos,
        v.used_le,
      ),
      omega (arith, v.len_pos, v.used_le),
    )
    | inr room ↦ rw room (v.slots_len, ground arith)
  ]

  grown-limit : (grown h).limit ≡ 0
  grown-limit = ground arith

  after_array-Inv : Inv after_array
  after_array-Inv = record {
    slots_len = length-set (grown h).slots h.used e ∙ grown-room.0;
    used_le = omega (arith, grown-room.1);
    len_pos = omega (arith, grown-room.1);
    ring_len = λ p. absurd (omega (arith, grown-limit));
    head_lt = λ p. absurd (omega (arith, grown-limit));
    filling = λ p q. absurd (omega (arith, grown-limit));
  }

  place-array : (j : ℕ) → place after_array j ≡ h.used + 1 - 1 - j
  place-array j = rw grown-limit

  grown-slots : (i : ℕ) → i < h.used → get_or (grown h).slots i blank ≡ get_or h.slots i blank
  grown-slots i p = elim (Bool-cases (leb h.len h.used)) [
    | inl full ↦ rw full (get_or-append h.slots _ i blank (omega (arith, v.slots_len, v.used_le)))
    | inr room ↦ rw room
  ]

  recent-after_array : recent after_array ≡ bounded h.limit (e ∷ recent h)
  unfolding collect bounded
  recent-after_array =
      ap (λ k. collect after_array.slots (place after_array) k 0) {y = suc h.used} (omega arith)
      ∙ ap₂ (λ x l. x ∷ l) newest
          (collect-shift after_array.slots h.slots (place after_array) (place h) h.used 0 older)
      ∙ rw free
    where
      newest : get_or after_array.slots (place after_array 0) blank ≡ e
      newest =
          ap (λ i. get_or after_array.slots i blank) {y = h.used} (place-array 0 ∙ omega arith)
          ∙ get_or-set_self (grown h).slots h.used e blank
              (omega (arith, grown-room.0, grown-room.1))

      older :
          (j : ℕ)
          → 0 ≤ j
          → j < 0 + h.used
          → get_or after_array.slots (place after_array (j + 1)) blank
            ≡ get_or h.slots (place h j) blank
      older j p q =
          let spot : place h j ≡ h.used - 1 - j = rw free in
          ap (λ i. get_or after_array.slots i blank) {y = place h j}
            (place-array (j + 1) ∙ omega (arith, spot))
          ∙ get_or-set_ne (grown h).slots h.used (place h j) e blank (λ r. omega (arith, spot))
          ∙ grown-slots (place h j) (omega (arith, spot))

  pub add_entry-array : Added h e (add_entry h e)
  unfolding add_entry
  add_entry-array =
      let lim : ltb 0 h.limit ≡ false = rw free in
      added after_array
        (rw
          (lim, lt→ltb h.used (length (grown h).slots) (omega (arith, grown-room.0, grown-room.1))))
        after_array-Inv (grown-limit ∙ sym free) recent-after_array
