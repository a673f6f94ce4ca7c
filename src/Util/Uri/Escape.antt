-- ===== src/Util/Uri/Escape.antt =====
-- util_url_escape and util_url_unescape: their round trip, and what their buffers hold.
use mcaster1dnas.Base.{
  ℕ, ◌*◌, ◌/◌, ◌%◌, ◌≤◌, ◌<◌, ◌≡◌, ◌≢◌, inl, inr, refl, ap, ◌∙◌, Bool, true, false, not, ◌&&◌, [],
  ◌∷◌, ◌++◌, some, none, Bytes, IsByte, arith, length, length-append, All, All-append, all_below,
  all_below_sound, get_or, leb, ◌==◌, Bool-cases, Option-cases, ◌⊎◌,
}
use mcaster1dnas.Util.Uri.{
  is_safe, hexchars, escape_byte, escape_bytes, url_escape, decoded, url_unescape,
}

-- A byte that `isprint` accepts.
pub record IsPrintable (c : ℕ) : Type 0 where
  pub low : 32 ≤ c
  pub high : c ≤ 126

plain_or_coded : ℕ → Bool
plain_or_coded c =
    leb 32 c
    && not (is_safe c)
    && not (elim (decoded b'%' (get_or hexchars (c / 16 % 16) 0) (get_or hexchars (c % 16) 0)) [
      | some v ↦ v == c
      | none ↦ false
    ])

-- No printable byte fails to be decoded from its escape.
coded_table : all_below 127 (λ c. not (plain_or_coded c)) ≡ true
unfolding plain_or_coded is_safe decoded
coded_table = refl

decoded-hexchars :
    (c : ℕ)
    → IsPrintable c
    → is_safe c ≡ false
    → decoded b'%' (get_or hexchars (c / 16 % 16) 0) (get_or hexchars (c % 16) 0) ≡ some c
unfolding plain_or_coded
decoded-hexchars c p u =
    ground (arith, all_below_sound 127 (λ c. not (plain_or_coded c)) c coded_table (omega arith))

url_unescape-cons : (c : ℕ) (s : Bytes) → c ≢ b'%' → url_unescape (c ∷ s) ≡ c ∷ url_unescape s
unfolding url_unescape
url_unescape-cons c [] h = refl
url_unescape-cons c (a ∷ []) h = refl
url_unescape-cons c (a ∷ b ∷ s) h = ground arith

safe-ne-percent : (c : ℕ) → is_safe c ≡ true → c ≢ b'%'
unfolding is_safe
safe-ne-percent c h = ground arith

url_unescape-escape_byte :
    (c : ℕ) (s : Bytes) → IsPrintable c → url_unescape (escape_byte c ++ s) ≡ c ∷ url_unescape s
unfolding escape_byte url_unescape
url_unescape-escape_byte c s p = elim (Bool-cases (is_safe c)) [
  | inl h ↦ rw h (url_unescape-cons c s (safe-ne-percent c h))
  | inr h ↦ rw h (rw (decoded-hexchars c p h, url_unescape))
]

url_unescape-escape_bytes : (s : Bytes) → All IsPrintable s → url_unescape (escape_bytes s) ≡ s
unfolding escape_bytes
url_unescape-escape_bytes [] h = unfold url_unescape in refl
url_unescape-escape_bytes (c ∷ s) h =
    url_unescape-escape_byte c (escape_bytes s) h.0
    ∙ ap (λ t. c ∷ t) (url_unescape-escape_bytes s h.1)

escape_byte-length : (c : ℕ) → length (escape_byte c) ≤ 3
unfolding escape_byte
escape_byte-length c = ground arith

-- A digit, a letter or `%`.
abbrev pub IsUrlChar : ℕ → Type 0
IsUrlChar c = (is_safe c ≡ true) ⊎ (c ≡ b'%')

hexchars_table : all_below 16 (λ n. is_safe (get_or hexchars n 0)) ≡ true
unfolding is_safe
hexchars_table = refl

hexchars-IsUrlChar : (n : ℕ) → n < 16 → IsUrlChar (get_or hexchars n 0)
hexchars-IsUrlChar n h =
    inl (all_below_sound 16 (λ n. is_safe (get_or hexchars n 0)) n hexchars_table h)

escape_byte-IsUrlChar : (c : ℕ) → All IsUrlChar (escape_byte c)
unfolding escape_byte
escape_byte-IsUrlChar c = elim (Bool-cases (is_safe c)) [
  | inl h ↦ rw h (inl h, tt)
  | inr h ↦ rw h (
    inr refl,
    (
      hexchars-IsUrlChar (c / 16 % 16) (omega arith),
      (hexchars-IsUrlChar (c % 16) (omega arith), tt),
    ),
  )
]

-- `util_url_escape` writes digits, letters and `%` alone, at most three bytes for each byte
-- that it reads, so that its buffer of `len * 3 + 1` bytes is enough.
pub url_escape_fits :
    (s : Bytes)
    → All IsUrlChar (url_escape (some s)) × (length (url_escape (some s)) ≤ length s * 3)
unfolding url_escape
url_escape_fits [] = (tt, omega arith)
url_escape_fits (c ∷ s) = (
  All-append IsUrlChar (escape_byte c) (escape_bytes s) (escape_byte-IsUrlChar c)
      (url_escape_fits s).0,
  omega (
    arith,
    length-append (escape_byte c) (escape_bytes s),
    escape_byte-length c,
    (url_escape_fits s).1,
  ),
)

-- Of a text of printable bytes, `util_url_unescape` undoes `util_url_escape`.
pub url_unescape-url_escape :
    (s : Bytes) → All IsPrintable s → url_unescape (url_escape (some s)) ≡ s
url_unescape-url_escape s h = unfold url_escape in url_unescape-escape_bytes s h

decoded-IsByte : (c a b v : ℕ) → decoded c a b ≡ some v → IsByte v
unfolding decoded
decoded-IsByte c a b v h = ground arith

-- `util_url_unescape` never writes more than it reads, and a `%00` never makes a NUL: what it
-- writes of a C string is a C string.
pub url_unescape_fits :
    (s : Bytes) → All IsByte s → All IsByte (url_unescape s) × (length (url_unescape s) ≤ length s)
unfolding url_unescape
url_unescape_fits [] h = (tt, omega arith)
url_unescape_fits (c ∷ []) h = (h, omega arith)
url_unescape_fits (c ∷ a ∷ []) h = (h, omega arith)
url_unescape_fits (c ∷ a ∷ b ∷ s) h = elim (Option-cases (decoded c a b)) [
  | inl e ↦
      rw (e, url_unescape)
        (
          (h.0, (url_unescape_fits (a ∷ b ∷ s) h.1).0),
          omega (arith, (url_unescape_fits (a ∷ b ∷ s) h.1).1),
        )
  | inr (v, e) ↦
      rw (e, url_unescape)
        (
          (decoded-IsByte c a b v e, (url_unescape_fits s h.1.1.1).0),
          omega (arith, (url_unescape_fits s h.1.1.1).1),
        )
]
