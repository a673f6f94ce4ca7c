-- ===== src/Util/Base64/Bounds.antt =====
-- The buffers of the base64 functions, and hexadecimal text read back.
use mcaster1dnas.Base.{
  ℕ, All, Bool, Bytes, Option, [], all_below, all_below_sound, arith, false, get_or, inl, inr,
  length, length-append, none, refl, some, true, ◌%◌, ◌*◌, ◌++◌, ◌+◌, ◌/◌, ◌<◌, ◌==◌, ◌∷◌, ◌≡◌, ◌≢◌,
  ◌≤◌, ◌⊎◌,
}
use mcaster1dnas.Util.Uri.{hexchars, unescape_code}
use mcaster1dnas.Util.Base64.{
  base64_encode, Digit, base64_written, base64decode, bin_to_hex, decode_group,
}

-- `util_base64_encode_len` with its final NUL fits its `malloc (len*4/3 + 4)`.
pub base64_encode_fits : (s : Bytes) → length (base64_encode s) + 1 ≤ length s * 4 / 3 + 4
unfolding base64_encode
base64_encode_fits [] = omega arith
base64_encode_fits (a ∷ []) = omega arith
base64_encode_fits (a ∷ b ∷ []) = omega arith
base64_encode_fits (a ∷ b ∷ c ∷ s) = omega (arith, base64_encode_fits s)

decode_group-length : (a b c d : Digit) → length (decode_group a b c d) ≤ 3
unfolding decode_group
decode_group-length a b c d = ground arith

-- Whatever text it is given, what `util_base64_decode` writes fits, with its final NUL, in its
-- `malloc (len*3/4 + 5)`; it gives NULL exactly when the length is no multiple of four.
pub base64_written_fits :
    (s : Bytes)
    → ((base64_written s ≡ none) × (length s % 4 ≢ 0))
      ⊎ ((r : Bytes) × (base64_written s ≡ some r)
          × (length r + 1 ≤ length s * 3 / 4 + 5)
          × (length s % 4 ≡ 0))
unfolding base64_written
base64_written_fits [] = inr ([], refl, omega arith, omega arith)
base64_written_fits (a ∷ []) = inl (refl, omega arith)
base64_written_fits (a ∷ b ∷ []) = inl (refl, omega arith)
base64_written_fits (a ∷ b ∷ c ∷ []) = inl (refl, omega arith)
base64_written_fits (a ∷ b ∷ c ∷ d ∷ s) = elim (base64_written_fits s) [
  | inl (e, k) ↦ inl (rw (e, base64_written), omega arith)
  | inr (r, e, k, l) ↦
      let group : Bytes =
        decode_group (base64decode a) (base64decode b) (base64decode c) (base64decode d) in
      inr (
        group ++ r,
        rw (e, base64_written),
        omega (
          arith,
          length-append group r,
          decode_group-length (base64decode a) (base64decode b) (base64decode c) (base64decode d),
        ),
        omega arith,
      )
]

-- Two hexadecimal digits at a time.
pub read_hex : Bytes → Option Bytes
read_hex [] = some []
read_hex (h ∷ l ∷ s) = elim (unescape_code h l) [
  | none ↦ none
  | some v ↦ elim (read_hex s) [ none ↦ none | some r ↦ some (v ∷ r) ]
]
read_hex _ = none

reads : ℕ → Bool
reads d = elim (unescape_code (get_or hexchars (d % 256 / 16) 0) (get_or hexchars (d % 16) 0)) [
  | none ↦ false
  | some v ↦ v == d
]

reads_table : all_below 256 reads ≡ true
unfolding reads unescape_code
reads_table = refl

reads→eq :
    (d : ℕ)
    → reads d ≡ true
    → unescape_code (get_or hexchars (d % 256 / 16) 0) (get_or hexchars (d % 16) 0) ≡ some d
unfolding reads
reads→eq d h = ground arith

-- The text of `util_bin_to_hex` has two digits for each byte, and reads back as the data.
pub read_hex-bin_to_hex :
    (s : Bytes)
    → All (λ d. d < 256) s
    → (read_hex (bin_to_hex s) ≡ some s) × (length (bin_to_hex s) ≡ length s * 2)
unfolding read_hex bin_to_hex
read_hex-bin_to_hex [] h = (refl, omega arith)
read_hex-bin_to_hex (d ∷ s) h =
    let (e, k) = read_hex-bin_to_hex s h.1 in
    (rw (reads→eq d (all_below_sound 256 reads d reads_table h.0), e, read_hex), omega arith)
