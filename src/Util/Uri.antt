-- ===== src/Util/Uri.antt =====
-- src/util.c, lines 154 to 381: URL escapes and the check of a request's path.
-- A C string is the list of its bytes without the NUL. `none` is the code's -1 or NULL.
pub mod Escape
pub mod Verify
pub mod Normalise
mod Tests
use mcaster1dnas.Base.{
  ℕ, ◌+◌, ◌-◌, ◌*◌, ◌/◌, ◌%◌, Bool, true, false, ◌&&◌, ◌||◌, [], ◌∷◌, ◌++◌, Option, none, some,
  Bytes, codes, leb, ◌==◌, if◌then◌else◌, get_or,
}

-- `hex`; a byte from 128 on is a negative `char` there, and fails each test as well.
pub hex : ℕ → Option ℕ
hex c =
    if leb b'0' c && leb c b'9'
    then some (c - b'0')
    else if leb b'A' c && leb c b'F'
    then some (c - b'A' + 10)
    else if leb b'a' c && leb c b'f'
    then some (c - b'a' + 10)
    else none

abbrev pub hexchars : Bytes
hexchars = codes "0123456789abcdef"

-- The entries of the table `safechars` that are 1: digits and letters.
unfoldable pub is_safe : ℕ → Bool
is_safe c = (leb b'0' c && leb c b'9') || (leb b'A' c && leb c b'Z') || (leb b'a' c && leb c b'z')

-- What the loop of `util_url_escape` writes for one byte.
unfoldable pub escape_byte : ℕ → Bytes
unfolding is_safe
escape_byte c =
    if is_safe c
    then c ∷ []
    else b'%' ∷ get_or hexchars (c / 16 % 16) 0 ∷ get_or hexchars (c % 16) 0 ∷ []

unfoldable pub escape_bytes : Bytes → Bytes
escape_bytes [] = []
escape_bytes (c ∷ s) = escape_byte c ++ escape_bytes s

-- `util_url_escape`; `none` is a NULL argument.
unfoldable pub url_escape : Option Bytes → Bytes
unfolding escape_bytes escape_byte
url_escape none = []
url_escape (some s) = escape_bytes s

unfoldable pub unescape_code : ℕ → ℕ → Option ℕ
unfolding hex
unescape_code a b = elim (hex a) [
  | none ↦ none
  | some h ↦ elim (hex b) [ none ↦ none | some l ↦ some (h * 16 + l) ]
]

-- `isprint` in the C locale, which the program never leaves.
pub is_print : ℕ → Bool
is_print v = leb 32 v && leb v 126

-- The byte that `%ab` stands for, if the loop decodes it.
pub decoded : ℕ → ℕ → ℕ → Option ℕ
unfolding unescape_code is_print
decoded c a b =
    if c == b'%'
    then elim (unescape_code a b) [ none ↦ none | some v ↦ if is_print v then some v else none ]
    else none

-- `util_url_unescape`: a `%` with fewer than two bytes behind it is copied.
pub url_unescape : Bytes → Bytes
unfolding decoded
url_unescape [] = []
url_unescape (c ∷ []) = c ∷ []
url_unescape (c ∷ a ∷ []) = c ∷ a ∷ []
url_unescape (c ∷ a ∷ b ∷ s) = elim (decoded c a b) [
  | some v ↦ v ∷ url_unescape s
  | none ↦ c ∷ url_unescape (a ∷ b ∷ s)
]

-- `strstr (path, "//") != NULL`
abbrev pub has_double : Bytes → Bool
has_double [] = false
has_double (c ∷ []) = false
has_double (c ∷ d ∷ s) = ((c == b'/') && (d == b'/')) || has_double (d ∷ s)

-- The loop of `util_normalise_uri` on the path `c ∷ r`: `memmove (path+1, path+2, ...)`
-- takes out the second byte of the path, wherever the double slash stands.
pub collapse_from : ℕ → Bytes → Bytes
collapse_from c [] = c ∷ []
collapse_from c (d ∷ r) = elim (has_double (c ∷ d ∷ r)) [
  | true ↦ collapse_from c r
  | false ↦ c ∷ d ∷ r
]

pub collapse : Bytes → Bytes
unfolding collapse_from
collapse [] = []
collapse (c ∷ r) = collapse_from c r

abbrev pub is_separator : ℕ → Bool
is_separator c = (c == b'/') || (c == b'\\')

-- The loop of `verify_path`, with its flags `dir` and `indotseq`.
pub verify_from : Bool → Bool → Bytes → Bool
verify_from dir dots [] = true
verify_from dir dots (c ∷ s) =
    let entered = verify_from true dots s in
    let inside = verify_from false (if dir || dots then c == b'.' else dots) s in
    if is_separator c then if dots then false else if dir then false else entered else inside

-- `verify_path`, as it is built where `_WIN32` is not defined.
pub verify_path : Bytes → Bool
unfolding verify_from
verify_path [] = false
verify_path (c ∷ s) = verify_from false false (c ∷ s)

-- `util_normalise_uri`
unfoldable pub normalise_uri : Bytes → Option Bytes
unfolding url_unescape collapse verify_path
normalise_uri [] = none
normalise_uri (c ∷ s) =
    let path = collapse (url_unescape (c ∷ s)) in
    if c == b'/' then if verify_path path then some path else none else none
