-- ===== src/Httpp/Request.antt =====
-- src/httpp/httpp.c, lines 63 to 130 and 289 to 438: a request is read from its text.
use mcaster1dnas.Base.{
  ℕ, Option, Bytes, Bool, List, [], some, false, if◌then◌else◌, none, true, ◌++◌, ◌==◌, ◌∷◌, ◌||◌,
  codes, zero, suc, map,
}
use mcaster1dnas.Params.Table.{lower, same_name}
use mcaster1dnas.Httpp.{parse_query}

-- A line as a C string: `\r` is made a NUL.
abbrev pub line_text : Bytes → Bytes
line_text [] = []
line_text (c ∷ s) = if (c == 0) || (c == 13) then [] else c ∷ line_text s

-- Whether the next line is empty.
abbrev pub blank_next : Bytes → Bool
blank_next [] = false
blank_next (c ∷ s) = (c == 10) || (c == 13)

-- The loop of `split_headers`: the lines that end with `\n`, at most so many, up to an empty one.
unfoldable pub split_lines : ℕ → Bytes → Bytes → List Bytes
split_lines zero line s = []
split_lines (suc room) line [] = []
split_lines (suc room) line (c ∷ s) = elim (c == 10) [
  | true ↦ line ∷ elim (blank_next s) [ true ↦ [] | false ↦ split_lines room [] s ]
  | false ↦ split_lines (suc room) (line ++ (c ∷ [])) s
]

-- `split_headers`, where `MAX_HEADERS` is 48.
unfoldable pub split_headers : Bytes → List Bytes
unfolding split_lines
split_headers text = map line_text (split_lines 48 [] text)

-- The bytes before the first `d`, and those behind it.
abbrev pub until : ℕ → Bytes → Bytes
until d [] = []
until d (c ∷ s) = if c == d then [] else c ∷ until d s

-- `strchr`, one byte on.
abbrev pub behind : ℕ → Bytes → Option Bytes
behind d [] = none
behind d (c ∷ s) = if c == d then some s else behind d s

abbrev pub skip : ℕ → Bytes → Bytes
skip d [] = []
skip d (c ∷ s) = if c == d then skip d s else c ∷ s

-- What follows a space and all spaces behind it.
abbrev pub next_word : Bytes → Bytes
next_word s = elim (behind 32 s) [ none ↦ [] | some t ↦ skip 32 t ]

-- A line of `parse_headers`: `none` without a value.
unfoldable pub parse_header : Bytes → Option (Bytes × Bytes)
unfolding lower
parse_header s = elim (behind b':' s) [
  | none ↦ none
  | some t ↦ elim (skip b' ' (skip b':' t)) [
    | [] ↦ none
    | ◌∷◌ c v ↦ some (map lower (until b':' s), c ∷ v)
  ]
]

-- `parse_headers`: the variables that are set.
unfoldable pub parse_headers : List Bytes → List (Bytes × Bytes)
unfolding parse_header
parse_headers [] = []
parse_headers (l ∷ ls) = elim (parse_header l) [
  | none ↦ parse_headers ls
  | some p ↦ p ∷ parse_headers ls
]

-- The types of requests, by the value of `HTTPP_VAR_REQ_TYPE`.
abbrev pub req_types : List Bytes
req_types =
    codes "GET"
    ∷ codes "POST"
    ∷ codes "HEAD"
    ∷ codes "SOURCE"
    ∷ codes "PUT"
    ∷ codes "OPTIONS"
    ∷ codes "PLAY"
    ∷ codes "STATS"
    ∷ []

unfoldable pub find_type : Bytes → List Bytes → Option Bytes
unfolding same_name
find_type s [] = none
find_type s (t ∷ ts) = if same_name t s then some t else find_type s ts

-- What a parser has after a request: the path, the variables and the parameters of the query in
-- the order in which they are set.
pub record Parser : Type 0 where
  pub uri : Bytes
  pub vars : List (Bytes × Bytes)
  pub params : List (Bytes × Option Bytes)

-- The path, the variables and the parameters of a URI.
abbrev pub parse_uri : Bytes → Parser
parse_uri u = elim (behind b'?' u) [
  | none ↦ record { uri = u; vars = []; params = [] }
  | some q ↦ record {
    uri = until b'?' u;
    vars = (codes "__rawuri", u) ∷ (codes " __queryargs", b'?' ∷ q) ∷ [];
    params = parse_query q;
  }
]

-- The name and the number of the protocol, neither of them empty.
abbrev pub parse_version : Bytes → Option (List (Bytes × Bytes))
parse_version v = elim (until b'/' v) [
  | [] ↦ none
  | ◌∷◌ c p ↦ elim (behind b'/' v) [
    | none ↦ none
    | some n ↦ elim n [
      | [] ↦ none
      | ◌∷◌ d m ↦ some ((codes "__protocol", c ∷ p) ∷ (codes "__version", d ∷ m) ∷ [])
    ]
  ]
]

-- The first line with its type, and the variables of the lines behind it.
abbrev pub finished : Bytes → Parser → List (Bytes × Bytes) → List (Bytes × Bytes) → Parser
finished type r version headers = record r {
  vars = r.vars ++ version ++ ((codes "__req_type", type) ∷ (codes "__uri", r.uri) ∷ headers);
}

-- `httpp_parse` for the words of the first line and the other lines; `none` is the result 0.
unfoldable pub parse_words : Bytes → Bytes → Bytes → List Bytes → Option Parser
unfolding find_type parse_headers
parse_words kind [] version lines = none
parse_words kind (c ∷ u) version lines = elim (parse_version version) [
  | none ↦ none
  | some protocol ↦ elim (find_type kind req_types) [
    | none ↦ none
    | some type ↦ some (finished type (parse_uri (c ∷ u)) protocol (parse_headers lines))
  ]
]

-- The words of the first line.
unfoldable pub parse_lines : Bytes → List Bytes → Option Parser
unfolding parse_words
parse_lines first lines =
    let second = next_word first in
    parse_words (until 32 first) (until 32 second) (until 32 (next_word second)) lines

-- `httpp_parse`: without a `\n` the first line is all there is.
unfoldable pub httpp_parse : Bytes → Option Parser
unfolding split_headers parse_lines
httpp_parse text = elim (split_headers text) [
  | [] ↦ parse_lines (line_text text) []
  | ◌∷◌ first lines ↦ parse_lines first lines
]
