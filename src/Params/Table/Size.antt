-- ===== src/Params/Table/Size.antt =====
-- The length that a list of headers keeps is enough for its text.
use mcaster1dnas.Base.{
  ℕ, All, Bool-cases, Bytes, List, Option, [], arith, inl, inr, length, not, ◌%◌, ◌&&◌, ◌+◌, ◌-◌,
  ◌<◌, ◌||◌, ◌∷◌, ◌≤◌, some,
}
use mcaster1dnas.Params.Table.{
  Param, Answer, ParamFlags, Params, clashes, find_entry, old_len, put_entry, store, stored_value,
  u32, apply_plain, keeps, name_size, refuses,
}

-- The bytes that an entry takes in the text, its divider and the separator behind it included.
abbrev pub text_size : Params → Param → ℕ
text_size pm p = name_size pm p.name + (length p.value + length pm.entry_end)

abbrev pub total : (Param → ℕ) → List Param → ℕ
total f [] = 0
total f (p ∷ ps) = f p + total f ps

-- The two lengths of each entry are no greater than they should be.
abbrev pub Counted : (Param → ℕ) → List Param → Type 0
Counted f = All (λ p. p.name_len + p.value_len ≤ f p)

-- Room for the text of all entries and a NUL.
pub record HasRoom (pm : Params) : Type 0 where
  pub room : total (text_size pm) pm.entries + 1 ≤ pm.len
  pub counted : Counted (text_size pm) pm.entries

pub old_len-le :
    (f : Param → ℕ) (n : Bytes) (ps : List Param)
    → Counted f ps
    → old_len (find_entry n ps) ≤ total f ps
unfolding find_entry
old_len-le f n [] c = omega arith
old_len-le f n (p ∷ ps) c = elim (Bool-cases (clashes p n)) [
  | inl e ↦ rw e (omega (arith, c.0))
  | inr e ↦ rw e (omega (arith, old_len-le f n ps c.1))
]

total-put_entry :
    (f : Param → ℕ) (q : Param) (ps : List Param)
    → Counted f ps
    → total f (put_entry q ps) + old_len (find_entry q.name ps) ≤ total f ps + f q
unfolding find_entry put_entry
total-put_entry f q [] c = omega arith
total-put_entry f q (p ∷ ps) c = elim (Bool-cases (clashes p q.name)) [
  | inl e ↦ rw e (omega (arith, c.0))
  | inr e ↦ rw e (omega (arith, total-put_entry f q ps c.1))
]

Counted-put_entry :
    (f : Param → ℕ) (q : Param) (ps : List Param)
    → q.name_len + q.value_len ≤ f q
    → Counted f ps
    → Counted f (put_entry q ps)
unfolding put_entry
Counted-put_entry f q [] h c = (h, tt)
Counted-put_entry f q (p ∷ ps) h c = elim (Bool-cases (clashes p q.name)) [
  | inl e ↦ rw (e, put_entry) (h, c.1)
  | inr e ↦ rw (e, put_entry) (c.0, Counted-put_entry f q ps h c.1)
]

-- The bytes that a header adds.
abbrev pub added_size : Params → Bytes → Bytes → ℕ
added_size pm name text = name_size pm name + (length text + length pm.entry_end)

replaced_len :
    (len old new total added : ℕ)
    → total + 1 ≤ len
    → old ≤ total
    → len + added < u32
    → new + old ≤ total + added
    → new + 1 ≤ ((len + u32 - old) % u32 + added) % u32
replaced_len len old new total added h k l m = omega arith

-- Storing a header keeps room for the text of all entries, unless the length wraps.
pub store-HasRoom :
    (pm : Params) (name : Bytes) (flags : ParamFlags) (value : Option Bytes) (answer : Answer)
    → HasRoom pm
    → pm.len
        + added_size pm name
            (stored_value (not flags.verbatim && (pm.escaped || flags.esc)) value answer)
      < u32
    → HasRoom (store pm name flags value answer)
unfolding store
store-HasRoom pm name flags value answer r h = record {
  room =
      replaced_len pm.len _ _ _ _ r.room (old_len-le (text_size pm) name pm.entries r.counted) h
        (total-put_entry (text_size pm) _ pm.entries r.counted);
  counted = Counted-put_entry (text_size pm) _ pm.entries (omega arith) r.counted;
}

-- The list after a header, and how its length grows, where it does not wrap.
pub apply_plain-HasRoom :
    (pm : Params) (name : Bytes) (flags : ParamFlags) (v : Bytes)
    → HasRoom pm
    → pm.len
        + added_size pm name
            (stored_value (not flags.verbatim && (pm.escaped || flags.esc)) (some v) keeps)
      < u32
    → HasRoom (apply_plain pm name flags (some v)).0
unfolding apply_plain
apply_plain-HasRoom pm name flags v r h = elim (Bool-cases (refuses (find_entry name pm.entries))) [
  | inl e ↦ rw e r
  | inr e ↦ rw e (store-HasRoom pm name flags (some v) keeps r h)
]
