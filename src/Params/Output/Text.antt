-- ===== src/Params/Output/Text.antt =====
-- The text of a list of headers, and that its buffer is always large enough.
use mcaster1dnas.Params.Output.{
  complete_from, entry_text, divider, params_complete, params_complete_in,
}
use mcaster1dnas.Base.{
  Bytes, List, [], length, map, refl, ◌++◌, ◌+◌, ◌∷◌, ◌≡◌, ap, append-nil, append_assoc, arith,
  false, leb, length-append, some, true, ℕ, ◌<◌, ◌-◌, ◌∙◌, ◌≤◌,
}
use mcaster1dnas.Params.Table.{Param, Params, name_size, params_clear}
use mcaster1dnas.Params.Table.Size.{text_size, total, HasRoom}

-- A header as one line, without its end.
abbrev pub line : Params → Param → Bytes
line pm p = p.name ++ (divider pm p.name ++ p.value)

-- Texts with a separator between them.
abbrev pub join : Bytes → List Bytes → Bytes
join sep [] = []
join sep (t ∷ []) = t
join sep (t ∷ u ∷ ts) = (t ++ sep) ++ join sep (u ∷ ts)

-- The text that a list of headers stands for.
abbrev pub text_of : Params → List Param → Bytes
text_of pm ps = join pm.entry_end (map (line pm) ps)

lt-not-leb : (a b : ℕ) → b < a → leb a b ≡ false
lt-not-leb a b h = ground arith

length-name : (pm : Params) (n : Bytes) → length n + length (divider pm n) ≡ name_size pm n
length-name pm [] = omega arith
length-name pm (c ∷ n) = refl

length-line : (pm : Params) (p : Param) → length (line pm p) + length pm.entry_end ≡ text_size pm p
length-line pm p = omega (
  arith,
  length-append p.name (divider pm p.name ++ p.value),
  length-append (divider pm p.name) p.value,
  length-name pm p.name,
)

entry_text-more : (pm : Params) (p : Param) → entry_text pm p true ≡ line pm p ++ pm.entry_end
unfolding entry_text
entry_text-more pm p = simp append_assoc

entry_text-last : (pm : Params) (p : Param) → entry_text pm p false ≡ line pm p
unfolding entry_text
entry_text-last pm p = simp append-nil

-- With room for the text of all entries, `_ice_params_complete` never fails.
pub complete_from-room :
    (pm : Params) (remain : ℕ) (ps : List Param)
    → total (text_size pm) ps < remain
    → complete_from pm remain ps ≡ some (text_of pm ps)
unfolding complete_from
complete_from-room pm remain [] h = refl
complete_from-room pm remain (p ∷ []) h =
    rw
      (
        entry_text-last pm p,
        lt-not-leb remain (length (line pm p)) (omega (arith, length-line pm p)),
      )
      (ap some (append-nil (line pm p)))
complete_from-room pm remain (p ∷ q ∷ ps) h =
    let size : length (line pm p ++ pm.entry_end) ≡ text_size pm p =
      length-append (line pm p) pm.entry_end ∙ length-line pm p in
    rw
      (
        entry_text-more pm p,
        lt-not-leb remain (length (line pm p ++ pm.entry_end)) (omega (arith, size)),
        complete_from-room pm (remain - length (line pm p ++ pm.entry_end)) (q ∷ ps)
            (omega (arith, size)),
      )
      (ap (λ t. some (t ++ text_of pm (q ∷ ps))) (entry_text-more pm p))

pub length-text_of :
    (pm : Params) (ps : List Param) → length (text_of pm ps) ≤ total (text_size pm) ps
length-text_of pm [] = omega arith
length-text_of pm (p ∷ []) = omega (arith, length-line pm p)
length-text_of pm (p ∷ q ∷ ps) = omega (
  arith,
  length-append (line pm p ++ pm.entry_end) (text_of pm (q ∷ ps)),
  length-append (line pm p) pm.entry_end,
  length-line pm p,
  length-text_of pm (q ∷ ps),
)

-- `mc_params_complete` always gives the text of the whole list, its entries with their dividers
-- and a separator between any two, where the list has room for it.
pub params_complete-text :
    (pm : Params) (p : Param) (ps : List Param)
    → pm.entries ≡ p ∷ ps
    → HasRoom pm
    → params_complete pm ≡ some (some (text_of pm pm.entries), params_clear pm)
unfolding params_complete params_complete_in
params_complete-text pm p ps e r =
    ground (arith, complete_from-room pm (pm.extra_len + pm.len) pm.entries (omega (arith, r.room)))
