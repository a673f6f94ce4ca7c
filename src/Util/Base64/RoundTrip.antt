-- ===== src/Util/Base64/RoundTrip.antt =====
-- base64: decoding undoes encoding, and neither writes past its buffer.
use mcaster1dnas.Base.{
  ℕ, ==_iff, All, Bool, Bytes, IsByte, [], all_below, all_below_sound, ap, arith, false, refl, some,
  true, ◌<◌, ◌==◌, ◌∷◌, ◌≡◌, ap₂, ◌%◌, ◌*◌, ◌+◌, ◌/◌, ◌∙◌,
}
use mcaster1dnas.Util.Base64.{
  base64_encode, Digit, base64_written, base64decode, c_string, invalid, pad, table_digit, val,
  base64_decode, decode_group, second_byte, third_byte,
}

is_val : Digit → ℕ → Bool
is_val (val v) n = v == n
is_val _ n = false

digit_table : all_below 64 (λ n. is_val (base64decode (table_digit n)) n) ≡ true
unfolding is_val base64decode
digit_table = refl

is_val→eq : (d : Digit) (n : ℕ) → is_val d n ≡ true → d ≡ val n
unfolding is_val
is_val→eq (val v) n h = ap val ((==_iff v n).0 h)
is_val→eq pad n h = cc
is_val→eq invalid n h = cc

base64decode-table_digit : (n : ℕ) → n < 64 → base64decode (table_digit n) ≡ val n
base64decode-table_digit n h =
    is_val→eq (base64decode (table_digit n)) n
      (all_below_sound 64 (λ n. is_val (base64decode (table_digit n)) n) n digit_table h)

c_string-cons : (c : ℕ) (s : Bytes) → 0 < c → c_string (c ∷ s) ≡ c ∷ c_string s
unfolding c_string
c_string-cons c s h = ground arith

c_string-zero : (s : Bytes) → c_string (0 ∷ s) ≡ []
unfolding c_string
c_string-zero s = refl

group_one :
    (a : ℕ)
    → a < 256
    → decode_group
        (base64decode (table_digit (a / 4)))
        (base64decode (table_digit (a % 4 * 16 + 0 / 16)))
        pad
        pad
      ≡ a ∷ 0 ∷ 0 ∷ []
unfolding decode_group second_byte third_byte
group_one a h =
    rw
      (
        base64decode-table_digit (a / 4) (omega arith),
        base64decode-table_digit (a % 4 * 16 + 0 / 16) (omega arith),
      )
      (ap (λ x. x ∷ 0 ∷ 0 ∷ []) (omega arith))

group_two :
    (a b : ℕ)
    → a < 256
    → b < 256
    → decode_group
        (base64decode (table_digit (a / 4)))
        (base64decode (table_digit (a % 4 * 16 + b / 16)))
        (base64decode (table_digit (b % 16 * 4)))
        pad
      ≡ a ∷ b ∷ 0 ∷ []
unfolding decode_group second_byte third_byte
group_two a b h k =
    rw
      (
        base64decode-table_digit (a / 4) (omega arith),
        base64decode-table_digit (a % 4 * 16 + b / 16) (omega arith),
        base64decode-table_digit (b % 16 * 4) (omega arith),
      )
      (ap₂ (λ x y. x ∷ y ∷ 0 ∷ []) (omega arith) (omega arith))

group_three :
    (a b c : ℕ)
    → a < 256
    → b < 256
    → c < 256
    → decode_group
        (base64decode (table_digit (a / 4)))
        (base64decode (table_digit (a % 4 * 16 + b / 16)))
        (base64decode (table_digit (b % 16 * 4 + c / 64)))
        (base64decode (table_digit (c % 64)))
      ≡ a ∷ b ∷ c ∷ []
unfolding decode_group second_byte third_byte
group_three a b c h k l =
    rw
      (
        base64decode-table_digit (a / 4) (omega arith),
        base64decode-table_digit (a % 4 * 16 + b / 16) (omega arith),
        base64decode-table_digit (b % 16 * 4 + c / 64) (omega arith),
        base64decode-table_digit (c % 64) (omega arith),
      )
      (ground arith)

-- The bytes written for a string are the string, with NULs in place of padding.
written_back :
    (s : Bytes)
    → All IsByte s
    → (r : Bytes) × (base64_written (base64_encode s) ≡ some r) × (c_string r ≡ s)
unfolding base64_written base64_encode
written_back [] h = ([], refl, unfold c_string in refl)
written_back (a ∷ []) h = (
  a ∷ 0 ∷ 0 ∷ [],
  rw (group_one a h.0.in_byte),
  c_string-cons a _ h.0.not_nul ∙ ap (λ t. a ∷ t) (c_string-zero _),
)
written_back (a ∷ b ∷ []) h = (
  a ∷ b ∷ 0 ∷ [],
  rw (group_two a b h.0.in_byte h.1.0.in_byte),
  c_string-cons a _ h.0.not_nul
      ∙ ap (λ t. a ∷ t) (c_string-cons b _ h.1.0.not_nul ∙ ap (λ t. b ∷ t) (c_string-zero _)),
)
written_back (a ∷ b ∷ c ∷ s) h =
    let (r, e, k) = written_back s h.1.1.1 in
    (
      a ∷ b ∷ c ∷ r,
      rw (e, group_three a b c h.0.in_byte h.1.0.in_byte h.1.1.0.in_byte),
      c_string-cons a _ h.0.not_nul
          ∙ ap (λ t. a ∷ t)
              (c_string-cons b _ h.1.0.not_nul
                ∙ ap (λ t. b ∷ t) (c_string-cons c _ h.1.1.0.not_nul ∙ ap (λ t. c ∷ t) k)),
    )

-- For every C string, `util_base64_decode` gives back what `util_base64_encode` was given.
pub base64_decode-base64_encode :
    (s : Bytes) → All IsByte s → base64_decode (base64_encode s) ≡ some s
unfolding base64_decode
base64_decode-base64_encode s h =
    let (r, e, k) = written_back s h in rw (e, base64_decode) (ap some k)
