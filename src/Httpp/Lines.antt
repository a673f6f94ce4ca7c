-- ===== src/Httpp/Lines.antt =====
-- src/httpp/httpp.c, lines 63 to 130: the lines of a request and what is found in them.
use mcaster1dnas.Base.{
  All-append, ℕ, Bytes, List, [], some, false, true, ◌++◌, ◌∷◌, zero, suc, map, All, ◌≡◌, ◌≢◌, ◌≤◌,
  refl, ap, ap₂, sym, ◌∙◌, arith, append-nil, append_assoc, length, ◌==◌,
}
use mcaster1dnas.Httpp.Request.{
  line_text, blank_next, split_lines, split_headers, until, behind, parse_header, parse_headers,
}
use mcaster1dnas.Params.Table.{lower}

abbrev pub Without : ℕ → Bytes → Type 0
Without d s = All (λ c. c ≢ d) s

pub until-append : (d : ℕ) (k s : Bytes) → Without d k → until d (k ++ (d ∷ s)) ≡ k
until-append d [] s h = ground arith
until-append d (c ∷ k) s h = ground (arith, until-append d k s h.1, h.0)

pub until_all : (d : ℕ) (k : Bytes) → Without d k → until d k ≡ k
until_all d [] h = refl
until_all d (c ∷ k) h = ground (arith, until_all d k h.1, h.0)

pub behind-append : (d : ℕ) (k s : Bytes) → Without d k → behind d (k ++ (d ∷ s)) ≡ some s
behind-append d [] s h = ground arith
behind-append d (c ∷ k) s h = ground (arith, behind-append d k s h.1, h.0)

-- A byte of a line.
pub record IsLineByte (c : ℕ) : Type 0 where
  pub not_nul : c ≢ 0
  pub not_lf : c ≢ 10
  pub not_cr : c ≢ 13

split_lines-cons :
    (room : ℕ) (line : Bytes) (c : ℕ) (s : Bytes)
    → c ≢ 10
    → split_lines (suc room) line (c ∷ s) ≡ split_lines (suc room) (line ++ (c ∷ [])) s
unfolding split_lines
split_lines-cons room line c s h = ground arith

split_lines-append :
    (room : ℕ) (k line s : Bytes)
    → All IsLineByte k
    → split_lines (suc room) line (k ++ s) ≡ split_lines (suc room) (line ++ k) s
split_lines-append room [] line s h = ap (λ l. split_lines (suc room) l s) (sym (append-nil line))
split_lines-append room (c ∷ k) line s h =
    split_lines-cons room line c (k ++ s) h.0.not_lf
    ∙ split_lines-append room k (line ++ (c ∷ [])) s h.1
    ∙ ap (λ l. split_lines (suc room) l s) (append_assoc line (c ∷ []) k)

line_text-append : (k : Bytes) → All IsLineByte k → line_text (k ++ (13 ∷ [])) ≡ k
line_text-append [] h = refl
line_text-append (c ∷ k) h = ground (arith, line_text-append k h.1, h.0.not_nul, h.0.not_cr)

-- Lines with `\r\n` behind each, and an empty one at the end.
abbrev pub print_lines : List Bytes → Bytes
print_lines [] = 13 ∷ 10 ∷ []
print_lines (l ∷ ls) = l ++ (13 ∷ 10 ∷ print_lines ls)

-- A line that is not empty.
abbrev pub IsLine : Bytes → Type 0
IsLine l = All IsLineByte l × (l ≢ [])

abbrev with_return : Bytes → Bytes
with_return l = l ++ (13 ∷ [])

blank_next-append : (l s : Bytes) → IsLine l → blank_next (l ++ s) ≡ false
blank_next-append [] s h = absurd (h.1 refl)
blank_next-append (c ∷ l) s h = ground (arith, h.0.0.not_lf, h.0.0.not_cr)

-- A line with `\r\n` behind it.
split_lines-line :
    (room : ℕ) (l s : Bytes)
    → All IsLineByte l
    → split_lines (suc room) [] (l ++ (13 ∷ 10 ∷ s))
      ≡ with_return l ∷ elim (blank_next s) [ true ↦ [] | false ↦ split_lines room [] s ]
unfolding split_lines
split_lines-line room l s h = split_lines-append room l [] (13 ∷ 10 ∷ s) h

split_lines-print_lines :
    (ls : List Bytes) (room : ℕ) (l : Bytes)
    → All IsLineByte l
    → All IsLine ls
    → length ls ≤ room
    → split_lines (suc room) [] (print_lines (l ∷ ls)) ≡ map with_return (l ∷ ls)
split_lines-print_lines [] room l h hs n = split_lines-line room l (13 ∷ 10 ∷ []) h
split_lines-print_lines (k ∷ ls) zero l h hs n = absurd (omega (arith, n))
split_lines-print_lines (k ∷ ls) (suc room) l h hs n =
    split_lines-line (suc room) l (print_lines (k ∷ ls)) h
    ∙ ap
        (λ b.
          with_return l
          ∷ elim b [ true ↦ [] | false ↦ split_lines (suc room) [] (print_lines (k ∷ ls)) ])
        (blank_next-append k (13 ∷ 10 ∷ print_lines ls) hs.0)
    ∙ ap (λ t. with_return l ∷ t) (split_lines-print_lines ls room k hs.0.0 hs.1 (omega (arith, n)))

map-with_return : (ls : List Bytes) → All IsLine ls → map line_text (map with_return ls) ≡ ls
map-with_return [] h = refl
map-with_return (l ∷ ls) h = ap₂ (λ x y. x ∷ y) (line_text-append l h.0.0) (map-with_return ls h.1)

-- `split_headers` finds the lines that were printed, 48 at most.
pub split_headers-print_lines :
    (l : Bytes) (ls : List Bytes)
    → All IsLineByte l
    → All IsLine ls
    → length ls ≤ 47
    → split_headers (print_lines (l ∷ ls)) ≡ l ∷ ls
unfolding split_headers
split_headers-print_lines l ls h hs n =
    ap (map line_text) (split_lines-print_lines ls 47 l h hs n)
    ∙ ap₂ (λ x y. x ∷ y) (line_text-append l h) (map-with_return ls hs)

-- A header as a client prints it.
abbrev pub header_of : Bytes × Bytes → Bytes
header_of (n, v) = n ++ (b':' ∷ b' ' ∷ v)

-- A value begins with another byte than a space.
abbrev pub HasText : Bytes → Type 0
HasText [] = false ≡ true
HasText (c ∷ s) = c ≢ b' '

-- A name without a colon, and a value with text.
pub record IsHeader (p : Bytes × Bytes) : Type 0 where
  pub name : All IsLineByte p.0
  pub value : All IsLineByte p.1
  pub no_colon : Without b':' p.0
  pub text : HasText p.1

abbrev pub lowered : Bytes × Bytes → Bytes × Bytes
lowered (n, v) = (map lower n, v)

parse_header-header_of :
    (n v : Bytes) → IsHeader (n, v) → parse_header (header_of (n, v)) ≡ some (lowered (n, v))
unfolding parse_header
parse_header-header_of n [] h = absurd (ground (arith, h.text))
parse_header-header_of n (c ∷ v) h =
    let text : (c == b' ') ≡ false = ground (arith, h.text) in
    rw
      (
        parse_header,
        behind-append b':' n (b' ' ∷ c ∷ v) h.no_colon,
        text,
        until-append b':' n (b' ' ∷ c ∷ v) h.no_colon,
      )
      refl

pub parse_headers-header_of :
    (hs : List (Bytes × Bytes))
    → All IsHeader hs
    → parse_headers (map header_of hs) ≡ map lowered hs
unfolding parse_headers
parse_headers-header_of [] h = refl
parse_headers-header_of ((n, v) ∷ hs) h =
    rw (parse_headers, parse_header-header_of n v h.0)
      (ap (λ t. lowered (n, v) ∷ t) (parse_headers-header_of hs h.1))

colon-IsLineByte : IsLineByte b':'
colon-IsLineByte = record { not_nul = ground arith; not_lf = ground arith; not_cr = ground arith }

pub space-IsLineByte : IsLineByte b' '
space-IsLineByte = record { not_nul = ground arith; not_lf = ground arith; not_cr = ground arith }

append-cons : (n : Bytes) (c : ℕ) (s : Bytes) → n ++ (c ∷ s) ≢ []
append-cons [] c s e = cc
append-cons (d ∷ n) c s e = cc

header_of-IsLine : (n v : Bytes) → IsHeader (n, v) → IsLine (header_of (n, v))
header_of-IsLine n v h = (
  All-append IsLineByte n (b':' ∷ b' ' ∷ v) h.name (colon-IsLineByte, (space-IsLineByte, h.value)),
  append-cons n b':' (b' ' ∷ v),
)

pub header_of-All : (hs : List (Bytes × Bytes)) → All IsHeader hs → All IsLine (map header_of hs)
header_of-All [] h = tt
header_of-All ((n, v) ∷ hs) h = (header_of-IsLine n v h.0, header_of-All hs h.1)
