-- ===== src/Httpp/Query.antt =====
-- src/httpp/httpp.c, lines 204 to 287, and util_url_escape of src/util.c: a query that is printed
-- with escapes is read back.
use mcaster1dnas.Base.{
  append-nil, append_assoc, sym, map, Option, Bool, true, ℕ, some, ◌++◌, Bytes, ◌≡◌, IsByte, All,
  ◌≢◌, ◌%◌, ◌/◌, ◌<◌, ◌∷◌, ◌==◌, ◌∙◌, arith, ap, none, false, inl, inr, Bool-cases, [], all_below,
  all_below_sound, get_or, refl, List,
}
use mcaster1dnas.Httpp.{
  key_with, val_with, query_walk, parse_query, decode_loop, in_front, url_value, c_string,
  query_param,
}
use mcaster1dnas.Util.Uri.Escape.{IsUrlChar, url_escape_fits}
use mcaster1dnas.Util.Uri.{escape_byte, url_escape, escape_bytes, hexchars, is_safe, unescape_code}

decode_loop-cons :
    (c : ℕ) (s : Bytes)
    → c ≢ b'%'
    → c ≢ b'#'
    → c ≢ b'+'
    → decode_loop (c ∷ s) ≡ in_front c (decode_loop s)
unfolding decode_loop
decode_loop-cons c [] h k l = ground arith
decode_loop-cons c (a ∷ []) h k l = ground arith
decode_loop-cons c (a ∷ b ∷ s) h k l = ground arith

abbrev is_number : Option ℕ → ℕ → Bool
is_number none n = false
is_number (some m) n = m == n

is_number→some : (o : Option ℕ) (n : ℕ) → is_number o n ≡ true → o ≡ some n
is_number→some none n h = cc
is_number→some (some m) n h = ap some (ground arith)

-- The two digits of a byte are read back.
coded_table :
    all_below 256 (λ c.
      is_number (unescape_code (get_or hexchars (c / 16 % 16) 0) (get_or hexchars (c % 16) 0)) c)
    ≡ true
unfolding unescape_code
coded_table = refl

unescape_code-hexchars :
    (c : ℕ)
    → c < 256
    → unescape_code (get_or hexchars (c / 16 % 16) 0) (get_or hexchars (c % 16) 0) ≡ some c
unescape_code-hexchars c h = is_number→some _ c (
    all_below_sound 256
      (λ x.
        is_number (unescape_code (get_or hexchars (x / 16 % 16) 0) (get_or hexchars (x % 16) 0)) x)
      c coded_table h)

-- `decode_loop` undoes one escape, of any byte.
decode_loop-escape_byte :
    (c : ℕ) (s : Bytes) → c < 256 → decode_loop (escape_byte c ++ s) ≡ in_front c (decode_loop s)
unfolding escape_byte decode_loop
decode_loop-escape_byte c s p = elim (Bool-cases (is_safe c)) [
  | inl h ↦ rw h (
      unfold is_safe in
      decode_loop-cons c s (λ e. absurd (ground arith)) (λ e. absurd (ground arith))
        (λ e. absurd (ground arith)))
  | inr h ↦ rw h (rw (unescape_code-hexchars c p, decode_loop) refl)
]

decode_loop-escape_bytes : (s : Bytes) → All IsByte s → decode_loop (escape_bytes s) ≡ some s
unfolding escape_bytes
decode_loop-escape_bytes [] h = unfold decode_loop in refl
decode_loop-escape_bytes (c ∷ s) h =
    decode_loop-escape_byte c (escape_bytes s) h.0.in_byte
    ∙ ap (in_front c) (decode_loop-escape_bytes s h.1)

c_string_self : (s : Bytes) → All IsByte s → c_string s ≡ s
c_string_self [] h = refl
c_string_self (c ∷ s) h = ground (arith, c_string_self s h.1, h.0.not_nul)

-- What `util_url_escape` makes of a C string, `url_escape` of the parser undoes.
pub url_value-url_escape : (s : Bytes) → All IsByte s → url_value (url_escape (some s)) ≡ some s
unfolding url_value url_escape
url_value-url_escape s h =
    rw (decode_loop-escape_bytes s h, url_value) (ap some (c_string_self s h))

-- A byte of a key that is printed as it is.
abbrev pub IsKeyByte : ℕ → Type 0
IsKeyByte c = (c ≢ b'&') × (c ≢ b'=')

-- A query with a `=` and an escaped value for each key.
abbrev pub more_of : List (Bytes × Bytes) → Bytes
more_of [] = []
more_of ((k, v) ∷ l) = b'&' ∷ (k ++ (b'=' ∷ (url_escape (some v) ++ more_of l)))

abbrev pub query_of : List (Bytes × Bytes) → Bytes
query_of [] = []
query_of ((k, v) ∷ l) = k ++ (b'=' ∷ (url_escape (some v) ++ more_of l))

abbrev pub as_given : Bytes × Bytes → Bytes × Option Bytes
as_given (k, v) = (k, some v)

query_walk-cons :
    (key : Bytes) (val : Option Bytes) (c : ℕ) (s : Bytes)
    → IsKeyByte c
    → query_walk key val (c ∷ s) ≡ query_walk (key_with key val c) (val_with val c) s
unfolding query_walk
query_walk-cons key val c s h = ground (arith, h.0, h.1)

-- The bytes of a key are put behind those that were read.
query_walk-key :
    (k done s : Bytes)
    → All IsKeyByte k
    → query_walk done none (k ++ s) ≡ query_walk (done ++ k) none s
query_walk-key [] done s h = ap (λ l. query_walk l none s) (sym (append-nil done))
query_walk-key (c ∷ k) done s h =
    query_walk-cons done none c (k ++ s) h.0
    ∙ query_walk-key k (done ++ (c ∷ [])) s h.1
    ∙ ap (λ l. query_walk l none s) (append_assoc done (c ∷ []) k)

-- The bytes of a value are put behind those that were read.
query_walk-value :
    (v key done s : Bytes)
    → All IsKeyByte v
    → query_walk key (some done) (v ++ s) ≡ query_walk key (some (done ++ v)) s
query_walk-value [] key done s h = ap (λ l. query_walk key (some l) s) (sym (append-nil done))
query_walk-value (c ∷ v) key done s h =
    query_walk-cons key (some done) c (v ++ s) h.0
    ∙ query_walk-value v key (done ++ (c ∷ [])) s h.1
    ∙ ap (λ l. query_walk key (some l) s) (append_assoc done (c ∷ []) v)

IsUrlChar-IsKeyByte : (s : Bytes) → All IsUrlChar s → All IsKeyByte s
unfolding is_safe
IsUrlChar-IsKeyByte [] h = tt
IsUrlChar-IsKeyByte (c ∷ s) h = (
  (λ e. absurd (ground (arith, h.0)), λ e. absurd (ground (arith, h.0))),
  IsUrlChar-IsKeyByte s h.1,
)

-- One key with its value: what is read before `s`.
query_walk-pair :
    (k v s : Bytes)
    → All IsKeyByte k
    → query_walk [] none (k ++ (b'=' ∷ (url_escape (some v) ++ s)))
      ≡ query_walk k (some (url_escape (some v))) s
unfolding query_walk
query_walk-pair k v s h =
    query_walk-key k [] (b'=' ∷ (url_escape (some v) ++ s)) h
    ∙ query_walk-value (url_escape (some v)) k [] s
        (IsUrlChar-IsKeyByte (url_escape (some v)) (url_escape_fits v).0)

-- A key without `&` and `=`, and a value that is a C string.
abbrev pub IsParam : Bytes × Bytes → Type 0
IsParam (k, v) = All IsKeyByte k × All IsByte v

query_param-given :
    (k v : Bytes) → All IsByte v → query_param k (some (url_escape (some v))) ≡ as_given (k, v)
query_param-given k v h = ap (λ o. (k, o)) (url_value-url_escape v h)

query_walk-more :
    (key : Bytes) (val : Option Bytes) (l : List (Bytes × Bytes))
    → All IsParam l
    → query_walk key val (more_of l) ≡ query_param key val ∷ map as_given l
unfolding query_walk
query_walk-more key val [] h = refl
query_walk-more key val ((k, v) ∷ l) h =
    ap (λ t. query_param key val ∷ t)
      (query_walk-pair k v (more_of l) h.0.0
        ∙ query_walk-more k (some (url_escape (some v))) l h.1
        ∙ ap (λ x. x ∷ map as_given l) (query_param-given k v h.0.1))

parse_query-append :
    (k : Bytes) (c : ℕ) (s : Bytes) → parse_query (k ++ (c ∷ s)) ≡ query_walk [] none (k ++ (c ∷ s))
unfolding parse_query
parse_query-append [] c s = refl
parse_query-append (d ∷ k) c s = refl

-- A query that is printed with util_url_escape gives, in the same order, the keys and the values
-- that it was printed from, for keys without `&` and `=`.
pub parse_query-query_of :
    (l : List (Bytes × Bytes)) → All IsParam l → parse_query (query_of l) ≡ map as_given l
parse_query-query_of [] h = unfold parse_query in refl
parse_query-query_of ((k, v) ∷ l) h =
    parse_query-append k b'=' (url_escape (some v) ++ more_of l)
    ∙ query_walk-pair k v (more_of l) h.0.0
    ∙ query_walk-more k (some (url_escape (some v))) l h.1
    ∙ ap (λ x. x ∷ map as_given l) (query_param-given k v h.0.1)
