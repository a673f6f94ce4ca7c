-- ===== src/Util/Dict.antt =====
-- src/util.c, lines 490 to 617: dictionaries of strings, linked lists of nodes. A NULL dictionary is
-- the empty list. Allocation succeeds.
pub mod Lookup
mod Tests
use mcaster1dnas.Base.{
  ℕ, Bool, Bytes, List, Option, [], false, if◌then◌else◌, none, some, str_eq, true, ◌++◌, ◌∷◌,
}
use mcaster1dnas.Util.Uri.{url_escape}

-- `util_dict`; `none` is a NULL pointer.
pub record Node : Type 0 where
  pub key : Option Bytes
  pub val : Option Bytes

abbrev pub Dict : Type 0
Dict = List Node

-- `util_dict_new`
abbrev pub dict_new : Dict
dict_new = record { key = none; val = none } ∷ []

-- `util_dict_get`; the outer `none` is `strcmp` with a NULL pointer, the inner one is NULL.
pub dict_get : Dict → Bytes → Option (Option Bytes)
dict_get [] key = some none
dict_get (n ∷ d) key =
    let rest = dict_get d key in
    elim n.key [ none ↦ none | some k ↦ if str_eq key k then some n.val else rest ]

-- A node with a key, and whether it is the one that `util_dict_set` stops at.
abbrev pub takes : Node → Bytes → Bool
takes n key = elim n.key [ none ↦ true | some k ↦ str_eq k key ]

-- The node that is filled: the first without a key or with the same key, or a new one.
pub fill : Dict → Bytes → Bytes → Dict
fill [] key val = record { key = some key; val = some val } ∷ []
fill (n ∷ d) key val =
    let rest = fill d key val in
    if takes n key
    then record { key = elim n.key [ none ↦ some key | some k ↦ some k ]; val = some val } ∷ d
    else n ∷ rest

-- `util_dict_set`, with a value that is not NULL: whether it returns 1, and the dictionary.
pub dict_set : Dict → Option Bytes → Bytes → Bool × Dict
unfolding fill
dict_set [] key val = (false, [])
dict_set (n ∷ d) none val = (false, n ∷ d)
dict_set (n ∷ d) (some key) val = (true, fill (n ∷ d) key val)

-- A key behind what was written before.
abbrev pub and_key : ℕ → Option Bytes → Bytes → Bytes
and_key delim none key = key
and_key delim (some r) key = r ++ delim ∷ key

abbrev pub and_val : Bytes → Option Bytes → Bytes
and_val r none = r
and_val r (some v) = r ++ b'=' ∷ url_escape (some v)

-- The loop of `util_dict_urlencode`, with what it wrote before.
pub urlencode_from : ℕ → Option Bytes → Dict → Option Bytes
urlencode_from delim res [] = res
urlencode_from delim res (n ∷ d) = elim n.key [
  | none ↦ urlencode_from delim res d
  | some k ↦ urlencode_from delim (some (and_val (and_key delim res k) n.val)) d
]

-- `util_dict_urlencode`
pub dict_urlencode : Dict → ℕ → Option Bytes
unfolding urlencode_from
dict_urlencode d delim = urlencode_from delim none d
