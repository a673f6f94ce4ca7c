-- ===== src/Icy2/Meta.antt =====
-- src/icy2_meta.c: `icy2_meta_new`, `icy2_meta_is_icy2`, `icy2_meta_parse_headers` and
-- `icy2_meta_copy_to_stats`. The request is a function from names of headers to their values, which
-- stands for `httpp_getvar`. Allocation succeeds.
use mcaster1dnas.Base.{
  ℕ, Bool, Bytes, List, Option, [], codes, false, if◌then◌else◌, leb, none, some, str_eq, suc, take,
  zero, ◌&&◌, ◌*◌, ◌++◌, ◌+◌, ◌-◌, ◌==◌, ◌||◌, ◌∷◌,
}
use mcaster1dnas.Icy2.Rows.{
  Row, Kind, Reports, StatRow, given, integer, not_negative, positive, string,
}
use mcaster1dnas.Icy2.Headers.{all_rows}
use mcaster1dnas.Icy2.Stats.{all_stats}
use mcaster1dnas.Params.Output.{decimal}

-- An `int`, not below 0 or below.
pub data ℤ : Type 0 where
  pos negsuc : ℕ → ℤ

abbrev pub is_space : ℕ → Bool
is_space c = (c == 32) || (leb 9 c && leb c 13)

abbrev pub digits_from : ℕ → Bytes → ℕ
digits_from n [] = n
digits_from n (c ∷ s) =
    let rest = digits_from (n * 10 + (c - b'0')) s in if leb b'0' c && leb c b'9' then rest else n

abbrev pub negated : ℕ → ℤ
negated zero = pos 0
negated (suc n) = negsuc n

abbrev pub signed : Bytes → ℤ
signed [] = pos 0
signed (c ∷ s) =
    if c == b'-'
    then negated (digits_from 0 s)
    else if c == b'+'
    then pos (digits_from 0 s)
    else pos (digits_from 0 (c ∷ s))

-- `atoi` in the C locale, for numbers that an `int` holds.
unfoldable pub atoi : Bytes → ℤ
atoi [] = pos 0
atoi (c ∷ s) = let rest = atoi s in if is_space c then rest else signed (c ∷ s)

-- What a member holds: a NULL pointer, a copy of a string, or a number.
pub data Value : Type 0 where
  null : Value
  text : Bytes → Value
  number : ℤ → Value

abbrev pub Meta : Type 0
Meta = Bytes → Value

abbrev pub unset_numbers : List Bytes
unset_numbers =
    codes "station_public"
    ∷ codes "nsfw"
    ∷ codes "ai_generated"
    ∷ codes "autodj"
    ∷ codes "audio_lossless"
    ∷ []

abbrev pub among : Bytes → List Bytes → Bool
among f [] = false
among f (g ∷ l) = str_eq f g || among f l

-- `icy2_meta_new`
abbrev pub meta_new : Meta
meta_new f =
    if str_eq f (codes "station_bitrate")
    then number (pos 0)
    else if among f unset_numbers
    then number (negsuc 0)
    else null

abbrev pub Request : Type 0
Request = Bytes → Option Bytes

-- `icy2_getvar`, and `httpp_getvar` where there is no header to fall back to.
unfoldable pub getvar : Request → Bytes → Option Bytes → Option Bytes
getvar req new_name legacy = elim (req new_name) [
  | some v ↦ some v
  | none ↦ elim legacy [ none ↦ none | some l ↦ req l ]
]

-- `icy2_meta_is_icy2`
unfoldable pub is_icy2 : Request → Bool
unfolding getvar
is_icy2 req = elim (getvar req (codes "icy-meta-version") (some (codes "icy-metadata-version"))) [
  | none ↦ false
  | some v ↦ str_eq (take 2 v) (codes "2.")
]

abbrev pub parsed : Kind → Bytes → Value
parsed string v = text v
parsed integer v = number (atoi v)

abbrev pub set_member : Meta → Bytes → Value → Meta
set_member m f v g = if str_eq f g then v else m g

-- The lines of `icy2_meta_parse_headers` on the members of a table, with `field_count`.
unfoldable pub parse_rows : Request → List Row → Meta → ℕ → Meta × ℕ
parse_rows req [] m n = (m, n)
parse_rows req (r ∷ rs) m n = elim (getvar req r.header r.legacy) [
  | none ↦ parse_rows req rs m n
  | some v ↦ parse_rows req rs (set_member m r.field (parsed r.kind v)) (n + 1)
]

-- `icy2_meta_parse_headers`: the members, and the number of them that it logs.
unfoldable pub parse_headers : Request → Meta → Meta × ℕ
unfolding parse_rows
parse_headers req m = parse_rows req all_rows m 0

-- What is reported of a value: a name and a text for `stats_set` or `stats_set_args`.
unfoldable pub reported : Reports → Bytes → Value → List (Bytes × Bytes)
reported given name (text v) = (name, v) ∷ []
reported positive name (number (pos (suc n))) = (name, decimal (suc n)) ∷ []
reported not_negative name (number (pos n)) = (name, decimal n) ∷ []
reported _ name _ = []

-- The lines of `icy2_meta_copy_to_stats` on the members of a table.
unfoldable pub report_rows : List StatRow → Meta → List (Bytes × Bytes)
unfolding reported
report_rows [] m = []
report_rows (s ∷ ss) m = reported s.test s.name (m s.member) ++ report_rows ss m

-- `icy2_meta_copy_to_stats`
unfoldable pub copy_to_stats : Meta → List (Bytes × Bytes)
unfolding report_rows
copy_to_stats m = report_rows all_stats m

-- The three calls that `source_apply_mount` makes for a request of a source.
unfoldable pub apply_icy2 : Request → List (Bytes × Bytes)
unfolding is_icy2 parse_headers copy_to_stats
apply_icy2 req = if is_icy2 req then copy_to_stats (parse_headers req meta_new).0 else []
