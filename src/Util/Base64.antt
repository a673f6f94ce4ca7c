-- ===== src/Util/Base64.antt =====
-- src/util.c, lines 359 to 487: base64 and hexadecimal text. A shift is written as a product or
-- a quotient, a mask of low bits as a remainder, and `|` of parts that share no bit as a sum.
pub mod RoundTrip
pub mod Bounds
mod Tests
use mcaster1dnas.Base.{
  ℕ, Bytes, Option, [], codes, get_or, if◌then◌else◌, leb, none, some, ◌%◌, ◌&&◌, ◌*◌, ◌++◌, ◌+◌,
  ◌-◌, ◌/◌, ◌==◌, ◌∷◌,
}
use mcaster1dnas.Util.Uri.{hexchars}

abbrev pub base64table : Bytes
base64table = codes "ABCDEFGHIJKLMNOPQRSTUVWXYZabcdefghijklmnopqrstuvwxyz0123456789+/"

-- An entry of `base64decode`: -2, -1 or the value of a digit.
pub data Digit : Type 0 where
  invalid pad : Digit
  val : ℕ → Digit

-- The table `base64decode`.
pub base64decode : ℕ → Digit
base64decode c =
    if c == b'+'
    then val 62
    else if c == b'/'
    then val 63
    else if leb b'0' c && leb c b'9'
    then val (c - b'0' + 52)
    else if c == b'='
    then pad
    else if leb b'A' c && leb c b'Z'
    then val (c - b'A')
    else if leb b'a' c && leb c b'z'
    then val (c - b'a' + 26)
    else invalid

abbrev pub table_digit : ℕ → ℕ
table_digit n = get_or base64table n 0

-- `util_base64_encode`, which calls `util_base64_encode_len` on the whole C string. Where one
-- byte is left, `*(data+1)` is the final NUL.
pub base64_encode : Bytes → Bytes
base64_encode [] = []
base64_encode (a ∷ []) = table_digit (a / 4) ∷ table_digit (a % 4 * 16 + 0 / 16) ∷ b'=' ∷ b'=' ∷ []
base64_encode (a ∷ b ∷ []) =
    table_digit (a / 4) ∷ table_digit (a % 4 * 16 + b / 16) ∷ table_digit (b % 16 * 4) ∷ b'=' ∷ []
base64_encode (a ∷ b ∷ c ∷ s) =
    table_digit (a / 4)
    ∷ table_digit (a % 4 * 16 + b / 16)
    ∷ table_digit (b % 16 * 4 + c / 64)
    ∷ table_digit (c % 64)
    ∷ base64_encode s

-- The second byte of a group, from `vals[1]` and `vals[2]`.
pub second_byte : ℕ → Digit → ℕ
second_byte v (val w) = v % 16 * 16 + w / 4
second_byte v _ = 0

-- The third byte of a group, from `vals[2]` and `vals[3]`: the low bits of -1 are ones.
pub third_byte : Digit → Digit → ℕ
third_byte (val v) (val w) = v % 4 * 64 + w
third_byte pad (val w) = 3 * 64 + w
third_byte _ _ = 0

-- What a round of the loop of `util_base64_decode` writes: nothing for a group with a digit out
-- of the alphabet, or with padding in one of its first two places.
pub decode_group : Digit → Digit → Digit → Digit → Bytes
unfolding second_byte third_byte
decode_group (val v) (val w) invalid z = []
decode_group (val v) (val w) y invalid = []
decode_group (val v) (val w) y z = (v * 4 + w / 16) ∷ second_byte w y ∷ third_byte y z ∷ []
decode_group _ _ _ _ = []

-- All bytes that `util_base64_decode` writes before its final NUL; `none` is NULL.
pub base64_written : Bytes → Option Bytes
unfolding base64decode decode_group
base64_written [] = some []
base64_written (a ∷ b ∷ c ∷ d ∷ s) = elim (base64_written s) [
  | none ↦ none
  | some r ↦
      some (decode_group (base64decode a) (base64decode b) (base64decode c) (base64decode d) ++ r)
]
base64_written _ = none

-- The C string that begins a buffer.
pub c_string : Bytes → Bytes
c_string [] = []
c_string (c ∷ s) = let rest = c_string s in if c == 0 then [] else c ∷ rest

-- `util_base64_decode`, read as a C string.
pub base64_decode : Bytes → Option Bytes
unfolding base64_written c_string
base64_decode s = elim (base64_written s) [ none ↦ none | some r ↦ some (c_string r) ]

-- `util_bin_to_hex`
pub bin_to_hex : Bytes → Bytes
bin_to_hex [] = []
bin_to_hex (d ∷ s) = get_or hexchars (d % 256 / 16) 0 ∷ get_or hexchars (d % 16) 0 ∷ bin_to_hex s
