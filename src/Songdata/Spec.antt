-- ===== src/Songdata/Spec.antt =====
-- What songdata_push and songdata_get_xml do to the list of entries, newest first: a step between
-- the code and Songdata/Promise, with the code's own entries.
use mcaster1dnas.Base.{ℕ, Bytes, List, Option, [], if◌then◌else◌, ltb, none, some, take, ◌∷◌}
use mcaster1dnas.Songdata.{Entry, end_entry, is_str, new_entry, wanted}

-- The entries after the time of the newest one of a mount is filled in; `none` where that one
-- has the title already.
unfoldable pub mark : Bytes → Bytes → ℕ → List Entry → Option (List Entry)
mark m t now [] = some []
mark m t now (e ∷ l) =
    let rest = mark m t now l in
    if is_str e.mount m
    then (if is_str e.title t then none else some (end_entry e now ∷ l))
    else elim rest [ none ↦ none | some r ↦ some (e ∷ r) ]

-- At most `limit` entries, if there is a limit.
unfoldable pub bounded : ℕ → List Entry → List Entry
bounded limit l = if ltb 0 limit then take limit l else l

-- A push of a title for a mount.
unfoldable pub spec_push : ℕ → List Entry → Bytes → Bytes → ℕ → ℕ → ℕ → List Entry
unfolding mark bounded
spec_push limit l m t listeners marked now = elim (mark m t marked l) [
  | none ↦ l
  | some r ↦ bounded limit (new_entry m t listeners now ∷ r)
]

-- The entries that a filter takes.
unfoldable pub spec_snapshot : Option Bytes → List Entry → List Entry
spec_snapshot filter [] = []
spec_snapshot filter (e ∷ l) =
    if wanted filter e then e ∷ spec_snapshot filter l else spec_snapshot filter l
