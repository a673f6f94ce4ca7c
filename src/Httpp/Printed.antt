-- ===== src/Httpp/Printed.antt =====
-- src/httpp/httpp.c, lines 63 to 438: a request that a client prints is read back.
use mcaster1dnas.Base.{
  All-append, suc, ◌<◌, ℕ, Bytes, List, [], some, ◌++◌, ◌∷◌, map, All, ◌≡◌, ◌≢◌, ◌≤◌, refl, length,
  codes, ap, arith, Option, none, ◌∙◌,
}
use mcaster1dnas.Httpp.{parse_query}
use mcaster1dnas.Httpp.Request.{
  parse_words, skip, next_word, find_type, req_types, parse_uri, parse_version, Parser, parse_lines,
  httpp_parse, until,
}
use mcaster1dnas.Httpp.Lines.{
  space-IsLineByte, Without, until-append, behind-append, IsLineByte, print_lines, header_of,
  IsHeader, lowered, header_of-All, parse_headers-header_of, split_headers-print_lines, until_all,
}

-- What a client prints: `path` is what follows the slash, `query` what follows the `?`.
pub record Printed : Type 0 where
  pub kind : Bytes
  pub path : Bytes
  pub query : Bytes
  pub version : Bytes
  pub headers : List (Bytes × Bytes)

abbrev pub uri_of : Printed → Bytes
uri_of r = b'/' ∷ r.path ++ (b'?' ∷ r.query)

abbrev pub version_of : Printed → Bytes
version_of r = codes "HTTP/" ++ r.version

abbrev pub request_line : Printed → Bytes
request_line r = r.kind ++ (b' ' ∷ uri_of r ++ (b' ' ∷ version_of r))

abbrev pub print : Printed → Bytes
print r = print_lines (request_line r ∷ map header_of r.headers)

-- A byte of a word on the first line.
pub record IsWordByte (c : ℕ) : Type 0 where
  pub in_line : IsLineByte c
  pub no_space : c ≢ b' '

-- A request of a known type, with 47 headers at most.
pub record IsPrinted (r : Printed) (type : Bytes) : Type 0 where
  pub found : find_type r.kind req_types ≡ some type
  pub kind : All IsWordByte r.kind
  pub path : All IsWordByte r.path
  pub no_mark : Without b'?' r.path
  pub query : All IsWordByte r.query
  pub version : All IsWordByte r.version
  pub has_version : r.version ≢ []
  pub headers : All IsHeader r.headers
  pub few : length r.headers ≤ 47

-- What is read of it.
abbrev pub read_back : Printed → Bytes → Parser
read_back r type = record {
  uri = b'/' ∷ r.path;
  vars =
      (codes "__rawuri", uri_of r)
      ∷ (codes " __queryargs", b'?' ∷ r.query)
      ∷ (codes "__protocol", codes "HTTP")
      ∷ (codes "__version", r.version)
      ∷ (codes "__req_type", type)
      ∷ (codes "__uri", b'/' ∷ r.path)
      ∷ map lowered r.headers;
  params = parse_query r.query;
}

IsWordByte-Without : (s : Bytes) → All IsWordByte s → Without b' ' s
IsWordByte-Without [] h = tt
IsWordByte-Without (c ∷ s) h = (h.0.no_space, IsWordByte-Without s h.1)

pub IsWordByte-IsLineByte : (s : Bytes) → All IsWordByte s → All IsLineByte s
IsWordByte-IsLineByte [] h = tt
IsWordByte-IsLineByte (c ∷ s) h = (h.0.in_line, IsWordByte-IsLineByte s h.1)

parse_version-version_of :
    (v : Bytes)
    → v ≢ []
    → parse_version (codes "HTTP/" ++ v)
      ≡ some ((codes "__protocol", codes "HTTP") ∷ (codes "__version", v) ∷ [])
parse_version-version_of [] h = absurd (h refl)
parse_version-version_of (c ∷ v) h = refl

parse_uri-uri_of :
    (p q : Bytes)
    → Without b'?' p
    → parse_uri (b'/' ∷ p ++ (b'?' ∷ q)) ≡ record {
      uri = b'/' ∷ p;
      vars = (codes "__rawuri", b'/' ∷ p ++ (b'?' ∷ q)) ∷ (codes " __queryargs", b'?' ∷ q) ∷ [];
      params = parse_query q;
    }
parse_uri-uri_of p q h = rw (behind-append b'?' p q h, until-append b'?' p q h) refl

pub is_word_byte : (c : ℕ) → 32 < c → IsWordByte c
is_word_byte c h = record {
  in_line = record { not_nul = ground arith; not_lf = ground arith; not_cr = ground arith };
  no_space = ground arith;
}

uri_of-IsWord : (r : Printed) (type : Bytes) → IsPrinted r type → All IsWordByte (uri_of r)
uri_of-IsWord r type h = (
  is_word_byte b'/' (omega arith),
  All-append IsWordByte r.path (b'?' ∷ r.query) h.path (is_word_byte b'?' (omega arith), h.query),
)

version_of-IsWord : (r : Printed) (type : Bytes) → IsPrinted r type → All IsWordByte (version_of r)
version_of-IsWord r type h =
    All-append IsWordByte (codes "HTTP/") r.version
      (
        is_word_byte _ (omega arith),
        (
          is_word_byte _ (omega arith),
          (
            is_word_byte _ (omega arith),
            (is_word_byte _ (omega arith), (is_word_byte _ (omega arith), tt)),
          ),
        ),
      )
      h.version

request_line-IsLine :
    (r : Printed) (type : Bytes) → IsPrinted r type → All IsLineByte (request_line r)
request_line-IsLine r type h =
    All-append IsLineByte r.kind (b' ' ∷ uri_of r ++ (b' ' ∷ version_of r))
      (IsWordByte-IsLineByte r.kind h.kind)
      (
        space-IsLineByte,
        All-append IsLineByte (uri_of r) (b' ' ∷ version_of r)
            (IsWordByte-IsLineByte (uri_of r) (uri_of-IsWord r type h))
            (space-IsLineByte, IsWordByte-IsLineByte (version_of r) (version_of-IsWord r type h)),
      )

length-map : (f : Bytes × Bytes → Bytes) (l : List (Bytes × Bytes)) → length (map f l) ≡ length l
length-map f [] = refl
length-map f (x ∷ l) = ap suc (length-map f l)

abbrev second_word : Option Bytes → Bytes
second_word o = elim o [ none ↦ [] | some t ↦ skip 32 t ]

parse_words-words :
    (r : Printed) (type : Bytes)
    → IsPrinted r type
    → parse_words r.kind (uri_of r) (version_of r) (map header_of r.headers)
      ≡ some (read_back r type)
unfolding parse_words
parse_words-words r type h =
    rw
      (
        parse_words,
        parse_version-version_of r.version h.has_version,
        h.found,
        parse_uri-uri_of r.path r.query h.no_mark,
        parse_headers-header_of r.headers h.headers,
      )
      refl

parse_lines-request_line :
    (r : Printed) (type : Bytes)
    → IsPrinted r type
    → parse_lines (request_line r) (map header_of r.headers) ≡ some (read_back r type)
unfolding parse_lines
parse_lines-request_line r type h =
    let u = uri_of r ++ (b' ' ∷ version_of r) in
    let k : until b' ' (request_line r) ≡ r.kind =
      until-append b' ' r.kind u (IsWordByte-Without r.kind h.kind) in
    let n : next_word (request_line r) ≡ u =
      ap second_word (behind-append b' ' r.kind u (IsWordByte-Without r.kind h.kind)) in
    let uri = IsWordByte-Without (uri_of r) (uri_of-IsWord r type h) in
    let i : until b' ' (next_word (request_line r)) ≡ uri_of r =
      ap (until b' ') n ∙ until-append b' ' (uri_of r) (version_of r) uri in
    let m : next_word (next_word (request_line r)) ≡ version_of r =
      ap next_word n ∙ ap second_word (behind-append b' ' (uri_of r) (version_of r) uri) in
    let v : until b' ' (next_word (next_word (request_line r))) ≡ version_of r =
      ap (until b' ') m
      ∙ until_all b' ' (version_of r)
          (IsWordByte-Without (version_of r) (version_of-IsWord r type h)) in
    ap
      (λ w.
        parse_words w (until b' ' (next_word (request_line r)))
          (until b' ' (next_word (next_word (request_line r)))) (map header_of r.headers))
      k
    ∙ ap
        (λ w.
          parse_words r.kind w (until b' ' (next_word (next_word (request_line r))))
            (map header_of r.headers))
        i
    ∙ ap (λ w. parse_words r.kind (uri_of r) w (map header_of r.headers)) v
    ∙ parse_words-words r type h

-- A request with one of the known types, whose words have no spaces and whose headers are at most
-- 47, is read back as it was printed: the path, the query and its parameters, the protocol, the
-- type, and the headers with their names in lower case.
pub httpp_parse-print :
    (r : Printed) (type : Bytes)
    → IsPrinted r type
    → httpp_parse (print r) ≡ some (read_back r type)
unfolding httpp_parse
httpp_parse-print r type h =
    rw
      (
        split_headers-print_lines (request_line r) (map header_of r.headers)
            (request_line-IsLine r type h) (header_of-All r.headers h.headers)
            (omega (arith, length-map header_of r.headers, h.few)),
        httpp_parse,
      )
      (parse_lines-request_line r type h)
