-- ===== src/Params/Table/Update.antt =====
-- What applying a header does to the entries of a list, by name.
use mcaster1dnas.Base.{
  ℕ, Bool-cases, Bytes, List, Option, [], arith, false, if◌then◌else◌, inl, inr, none, not, refl,
  some, sym, true, ◌&&◌, ◌||◌, ◌∙◌, ◌∷◌, ◌≡◌, ap,
}
use mcaster1dnas.Util.Uri.{url_escape}
use mcaster1dnas.Params.Table.{
  Param, Answer, ParamFlags, Params, apply_plain, clashes, find_entry, keeps, params_apply,
  put_entry, refuses, same_name, store, stored_value, pass,
}
use mcaster1dnas.Params.Table.Names.{
  clashes_cong, clashes_apart, clashes_same, clashes_sym, clashes→same, same_name_refl,
}

-- After an entry is put, its name finds it in any spelling, and every other name finds what it
-- found before.
pub find_entry-put_entry :
    (n : Bytes) (q : Param) (ps : List Param)
    → find_entry n (put_entry q ps) ≡ (if clashes q n then some q else find_entry n ps)
unfolding find_entry put_entry
find_entry-put_entry n q [] = refl
find_entry-put_entry n q (p ∷ ps) = elim (Bool-cases (clashes p q.name)) [
  | inl hit ↦ rw (hit, put_entry) (ground (arith, clashes_cong p q n hit))
  | inr miss ↦
      rw (miss, put_entry) (ground (arith, find_entry-put_entry n q ps, clashes_apart p q n miss))
]

-- No two entries have the same name, in any spelling; entries without a name do not count.
abbrev pub IsUnique : List Param → Type 0
IsUnique [] = Unit
IsUnique (p ∷ ps) = (find_entry p.name ps ≡ none) × IsUnique ps

find_entry_same :
    (ps : List Param) (a b : Bytes) → same_name a b ≡ true → find_entry a ps ≡ find_entry b ps
unfolding find_entry
find_entry_same [] a b h = refl
find_entry_same (r ∷ ps) a b h = ground (arith, clashes_same r a b h, find_entry_same ps a b h)

put_entry-IsUnique : (q : Param) (ps : List Param) → IsUnique ps → IsUnique (put_entry q ps)
unfolding put_entry
put_entry-IsUnique q [] u = (unfold find_entry in refl, tt)
put_entry-IsUnique q (p ∷ ps) u = elim (Bool-cases (clashes p q.name)) [
  | inl hit ↦
      rw (hit, put_entry)
        (sym (find_entry_same ps p.name q.name (clashes→same p q.name hit)) ∙ u.0, u.1)
  | inr miss ↦
      rw (miss, put_entry)
        (
          find_entry-put_entry p.name q ps ∙ rw (clashes_sym p q miss) u.0,
          put_entry-IsUnique q ps u.1,
        )
]

-- `_ice_params_apply` stores, or leaves the list alone; a list with one entry for each name stays
-- one, whatever the flags are.
pub apply_plain-IsUnique :
    (pm : Params) (name : Bytes) (flags : ParamFlags) (value : Option Bytes)
    → IsUnique pm.entries
    → IsUnique (apply_plain pm name flags value).0.entries
unfolding apply_plain store
apply_plain-IsUnique pm name flags none u = u
apply_plain-IsUnique pm name flags (some v) u =
    elim (Bool-cases (refuses (find_entry name pm.entries))) [
      | inl e ↦ rw e u
      | inr e ↦ rw e (put_entry-IsUnique _ pm.entries u)
    ]

-- However headers are applied, also with PARAM_MULTI, no name ever has two entries.
pub params_apply-IsUnique :
    (pm : Params) (hs : List (Bytes × ParamFlags × Option Bytes))
    → IsUnique pm.entries
    → IsUnique (params_apply pm hs).entries
unfolding params_apply
params_apply-IsUnique pm [] u = u
params_apply-IsUnique pm ((name, flags, value) ∷ hs) u =
    params_apply-IsUnique (apply_plain pm name flags value).0 hs
      (apply_plain-IsUnique pm name flags value u)

abbrev pub value_of : Option Param → Option Bytes
value_of none = none
value_of (some p) = some p.value

-- A stored header is found under its name with the text that is stored for it.
pub find_entry-store :
    (pm : Params) (c : ℕ) (s : Bytes) (flags : ParamFlags) (value : Option Bytes) (answer : Answer)
    → value_of (find_entry (c ∷ s) (store pm (c ∷ s) flags value answer).entries)
      ≡ some (stored_value (not flags.verbatim && (pm.escaped || flags.esc)) value answer)
unfolding store
find_entry-store pm c s flags value answer =
    rw (find_entry-put_entry (c ∷ s) _ pm.entries, same_name_refl (c ∷ s))

-- Without escapes.
pub find_entry-store_plain :
    (pm : Params) (c : ℕ) (s : Bytes) (value : Option Bytes) (answer : Answer)
    → pm.escaped ≡ false
    → value_of (find_entry (c ∷ s) (store pm (c ∷ s) pass value answer).entries)
      ≡ some (stored_value false value answer)
find_entry-store_plain pm c s value answer e =
    find_entry-store pm c s pass value answer
    ∙ ap (λ b. some (stored_value (true && (b || false)) value answer)) e

-- Under a name with another spelling, what was found before.
pub find_entry-store_other :
    (pm : Params) (name m : Bytes) (flags : ParamFlags) (value : Option Bytes) (answer : Answer)
    → same_name name m ≡ false
    → find_entry m (store pm name flags value answer).entries ≡ find_entry m pm.entries
unfolding store
find_entry-store_other pm name [] flags value answer d = rw (find_entry-put_entry [] _ pm.entries)
find_entry-store_other pm name (b ∷ m) flags value answer d =
    rw (find_entry-put_entry (b ∷ m) _ pm.entries, d)

-- After a header is applied that no constant entry refuses, its name finds its value, escaped if
-- the header or the list ask for that, and a name with another spelling finds what it found before.
pub find_entry-apply_plain :
    (pm : Params) (c : ℕ) (s v : Bytes) (flags : ParamFlags)
    → refuses (find_entry (c ∷ s) pm.entries) ≡ false
    → (value_of (find_entry (c ∷ s) (apply_plain pm (c ∷ s) flags (some v)).0.entries)
        ≡ some (if not flags.verbatim && (pm.escaped || flags.esc) then url_escape (some v) else v))
      × ((m : Bytes)
          → same_name (c ∷ s) m ≡ false
          → find_entry m (apply_plain pm (c ∷ s) flags (some v)).0.entries
            ≡ find_entry m pm.entries)
unfolding apply_plain stored_value
find_entry-apply_plain pm c s v flags h = (
  rw h (find_entry-store pm c s flags (some v) keeps),
  λ m d. rw h (find_entry-store_other pm (c ∷ s) m flags (some v) keeps d),
)
