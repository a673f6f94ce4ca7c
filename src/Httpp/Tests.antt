-- ===== src/Httpp/Tests.antt =====
-- Queries at concrete texts.
use mcaster1dnas.Base.{
  ◌&&◌, ltb, true, Bool, ℕ, All, arith, List, Bytes, [], none, some, ◌∷◌, ◌≡◌, refl, codes,
}
use mcaster1dnas.Httpp.Query.{IsParam, parse_query-query_of}
use mcaster1dnas.Util.Uri.{url_escape, escape_bytes, escape_byte, is_safe}
use mcaster1dnas.Httpp.Lines.{IsLineByte}
use mcaster1dnas.Httpp.Printed.{
  Printed, IsPrinted, print, httpp_parse-print, IsWordByte, is_word_byte, IsWordByte-IsLineByte,
}
use mcaster1dnas.Httpp.Request.{
  httpp_parse, split_headers, split_lines, parse_lines, parse_words, find_type, parse_headers,
  parse_header,
}
use mcaster1dnas.Params.Table.{lower, same_name}
use mcaster1dnas.Httpp.{decode_loop, url_value, query_walk, parse_query}

query_two :
    parse_query (codes "mount=%2flive&song=a+b")
    ≡ (codes "mount", some (codes "/live")) ∷ (codes "song", some (codes "a b")) ∷ []
unfolding parse_query query_walk url_value decode_loop
query_two = refl

-- Every `=` starts the value again, so that a value which ends in `=` is lost.
query_padding :
    parse_query (codes "token=YQ==&x") ≡ (codes "token", some []) ∷ (codes "x", some []) ∷ []
unfolding parse_query query_walk url_value decode_loop
query_padding = refl

query_malformed : parse_query (codes "a=%zz") ≡ (codes "a", none) ∷ []
unfolding parse_query query_walk url_value decode_loop
query_malformed = refl

abbrev two_params : List (Bytes × Bytes)
two_params = (codes "mount", codes "/live") ∷ (codes "song", codes "a=b&c") ∷ []

two_params-IsParam : All IsParam two_params
two_params-IsParam = ground arith

parse_query-query_of_example :
    parse_query (codes "mount=%2flive&song=a%3db%26c")
    ≡ (codes "mount", some (codes "/live")) ∷ (codes "song", some (codes "a=b&c")) ∷ []
unfolding url_escape escape_bytes escape_byte is_safe
parse_query-query_of_example = parse_query-query_of two_params two_params-IsParam

-- A name is lowercased, and colons and spaces in front of a value are left out.
header_spaces : parse_header (codes "Ice-Name::  a: b") ≡ some (codes "ice-name", codes "a: b")
unfolding parse_header lower
header_spaces = refl

request_short :
    httpp_parse (codes "get  /live?a=1 HTTP/1.0")
    ≡ some record {
      uri = codes "/live";
      vars =
          (codes "__rawuri", codes "/live?a=1")
          ∷ (codes " __queryargs", codes "?a=1")
          ∷ (codes "__protocol", codes "HTTP")
          ∷ (codes "__version", codes "1.0")
          ∷ (codes "__req_type", codes "GET")
          ∷ (codes "__uri", codes "/live")
          ∷ [];
      params = (codes "a", some (codes "1")) ∷ [];
    }
unfolding httpp_parse split_headers split_lines parse_lines parse_words find_type same_name
    parse_headers lower parse_query query_walk url_value decode_loop
request_short = refl

abbrev all_bytes : (ℕ → Bool) → Bytes → Bool
all_bytes p [] = true
all_bytes p (c ∷ s) = p c && all_bytes p s

abbrev live_request : Printed
live_request = record {
  kind = codes "get";
  path = codes "live";
  query = codes "a=1";
  version = codes "1.1";
  headers = (codes "Host", codes "radio") ∷ (codes "Icy-MetaData", codes "1") ∷ [];
}

all_bytes-IsWordByte : (s : Bytes) → all_bytes (ltb 32) s ≡ true → All IsWordByte s
all_bytes-IsWordByte [] h = tt
all_bytes-IsWordByte (c ∷ s) h =
    (is_word_byte c (ground (arith, h)), all_bytes-IsWordByte s (ground (arith, h)))

all_bytes-IsLineByte : (s : Bytes) → all_bytes (ltb 32) s ≡ true → All IsLineByte s
all_bytes-IsLineByte s h = IsWordByte-IsLineByte s (all_bytes-IsWordByte s h)

live_request-IsPrinted : IsPrinted live_request (codes "GET")
unfolding find_type same_name lower
live_request-IsPrinted = record {
  found = refl;
  kind = all_bytes-IsWordByte (codes "get") refl;
  path = all_bytes-IsWordByte (codes "live") refl;
  no_mark = ground arith;
  query = all_bytes-IsWordByte (codes "a=1") refl;
  version = all_bytes-IsWordByte (codes "1.1") refl;
  has_version = λ e. absurd (ground (arith, e));
  headers = (
    record {
      name = all_bytes-IsLineByte (codes "Host") refl;
      value = all_bytes-IsLineByte (codes "radio") refl;
      no_colon = ground arith;
      text = ground arith;
    },
    (
      record {
        name = all_bytes-IsLineByte (codes "Icy-MetaData") refl;
        value = all_bytes-IsLineByte (codes "1") refl;
        no_colon = ground arith;
        text = ground arith;
      },
      tt,
    ),
  );
  few = omega arith;
}

httpp_parse-print_example :
    httpp_parse (print live_request)
    ≡ some record {
      uri = codes "/live";
      vars =
          (codes "__rawuri", codes "/live?a=1")
          ∷ (codes " __queryargs", codes "?a=1")
          ∷ (codes "__protocol", codes "HTTP")
          ∷ (codes "__version", codes "1.1")
          ∷ (codes "__req_type", codes "GET")
          ∷ (codes "__uri", codes "/live")
          ∷ (codes "host", codes "radio")
          ∷ (codes "icy-metadata", codes "1")
          ∷ [];
      params = (codes "a", some (codes "1")) ∷ [];
    }
unfolding lower parse_query query_walk url_value decode_loop
httpp_parse-print_example = httpp_parse-print live_request (codes "GET") live_request-IsPrinted
