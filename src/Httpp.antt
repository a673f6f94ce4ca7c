-- ===== src/Httpp.antt =====
-- src/httpp/httpp.c: requests. This file is about lines 192 to 287, the query. A C string is the list
-- of its bytes without the NUL, and `none` stands for NULL.
pub mod Query
mod Tests
pub mod Request
pub mod Lines
pub mod Printed
use mcaster1dnas.Base.{
  ℕ, Option, Bytes, List, [], some, false, if◌then◌else◌, none, true, ◌++◌, ◌==◌, ◌∷◌,
}
use mcaster1dnas.Util.Uri.{unescape_code}

-- A byte in front of what is decoded of the rest.
abbrev pub in_front : ℕ → Option Bytes → Option Bytes
in_front c none = none
in_front c (some s) = some (c ∷ s)

-- What `url_escape` does with a byte that has no two bytes behind it, or is no `%`.
abbrev pub plain_byte : ℕ → Option Bytes → Option Bytes
plain_byte c rest =
    if c == b'%'
    then none
    else if c == b'#'
    then some []
    else in_front (if c == b'+' then b' ' else c) rest

-- The loop of `url_escape`, which decodes; `hex` is the same function there and in src/util.c.
unfoldable pub decode_loop : Bytes → Option Bytes
unfolding unescape_code
decode_loop [] = some []
decode_loop (c ∷ []) = plain_byte c (some [])
decode_loop (c ∷ a ∷ []) = plain_byte c (decode_loop (a ∷ []))
decode_loop (c ∷ a ∷ b ∷ s) = elim (c == b'%') [
  | true ↦ elim (unescape_code a b) [ none ↦ none | some v ↦ in_front v (decode_loop s) ]
  | false ↦ plain_byte c (decode_loop (a ∷ b ∷ s))
]

-- The string that a buffer holds: the bytes before the first NUL.
abbrev pub c_string : Bytes → Bytes
c_string [] = []
c_string (c ∷ s) = if c == 0 then [] else c ∷ c_string s

-- `url_escape`; a `%00` ends what it gives.
unfoldable pub url_value : Bytes → Option Bytes
unfolding decode_loop
url_value s = elim (decode_loop s) [ none ↦ none | some t ↦ some (c_string t) ]

-- The parameter of a key and, where there was one, a value.
abbrev pub query_param : Bytes → Option Bytes → Bytes × Option Bytes
query_param key none = (key, url_value [])
query_param key (some val) = (key, url_value val)

-- A byte behind the last `&` belongs to the value, if there was a `=`, and to the key otherwise.
abbrev pub key_with : Bytes → Option Bytes → ℕ → Bytes
key_with key none c = key ++ (c ∷ [])
key_with key (some val) c = key

abbrev pub val_with : Option Bytes → ℕ → Option Bytes
val_with none c = none
val_with (some val) c = some (val ++ (c ∷ []))

-- The loop of `parse_query`: every `=` starts the value again.
unfoldable pub query_walk : Bytes → Option Bytes → Bytes → List (Bytes × Option Bytes)
unfolding url_value
query_walk key val [] = query_param key val ∷ []
query_walk key val (c ∷ s) = elim (c == b'&') [
  | true ↦ query_param key val ∷ query_walk [] none s
  | false ↦ elim (c == b'=') [
    | true ↦ query_walk key (some []) s
    | false ↦ query_walk (key_with key val c) (val_with val c) s
  ]
]

-- `parse_query`: the parameters in the order in which `httpp_set_query_param` gets them, their
-- values decoded.
unfoldable pub parse_query : Bytes → List (Bytes × Option Bytes)
unfolding query_walk
parse_query [] = []
parse_query (c ∷ s) = query_walk [] none (c ∷ s)
