-- ===== src/Icy2/Report.antt =====
-- What the statistics of a source say of the headers of its request.
use mcaster1dnas.Base.{
  ℕ, Bool, Bytes, List, [], false, none, not, refl, some, str_eq, true, ◌&&◌, ◌++◌, ◌||◌, ◌∷◌, ◌≡◌,
  Bool-cases, Option-cases, arith, inl, inr, str_eq→eq, ◌+◌, ◌∙◌, ap, ap₂, if◌then◌else◌, subst,
}
use mcaster1dnas.Icy2.Rows.{Row, StatRow}
use mcaster1dnas.Icy2.Headers.{all_rows}
use mcaster1dnas.Icy2.Stats.{all_stats}
use mcaster1dnas.Icy2.Meta.{
  parse_rows, Meta, Request, getvar, meta_new, parsed, reported, Value, report_rows, set_member,
  apply_icy2, copy_to_stats, is_icy2, parse_headers,
}

in_rows : Bytes → List Row → Bool
in_rows f [] = false
in_rows f (r ∷ rs) = str_eq r.field f || in_rows f rs

in_stats : Bytes → List StatRow → Bool
in_stats f [] = false
in_stats f (s ∷ ss) = str_eq f s.member || in_stats f ss

-- Two tables speak of the same members in the same order, each of them once.
aligned : List Row → List StatRow → Bool
unfolding in_rows in_stats
aligned [] [] = true
aligned (r ∷ rs) (s ∷ ss) =
    str_eq r.field s.member
    && not (in_rows r.field rs)
    && not (in_stats r.field ss)
    && aligned rs ss
aligned _ _ = false

all_aligned : aligned all_rows all_stats ≡ true
unfolding aligned in_rows in_stats
all_aligned = refl

-- What is to be reported of a request: for each member its value, read as its kind says, if the
-- header of version 2.2 or, without it, that of version 2.1 is there.
pub wanted : Request → List Row → List StatRow → List (Bytes × Bytes)
wanted req (r ∷ rs) (s ∷ ss) =
    elim (getvar req r.header r.legacy) [
      | none ↦ []
      | some v ↦ reported s.test s.name (parsed r.kind v)
    ]
    ++ wanted req rs ss
wanted req _ _ = []

is_nil : List (Bytes × Bytes) → Bool
is_nil [] = true
is_nil (x ∷ l) = false

nil-is_nil : (l : List (Bytes × Bytes)) → is_nil l ≡ true → l ≡ []
unfolding is_nil
nil-is_nil [] h = refl
nil-is_nil (x ∷ l) h = absurd (ground arith)

-- Members that are not reported.
silent : Meta → List StatRow → Bool
unfolding is_nil
silent m [] = true
silent m (s ∷ ss) = is_nil (reported s.test s.name (m s.member)) && silent m ss

new_silent : silent meta_new all_stats ≡ true
unfolding silent is_nil reported
new_silent = refl

silent-set_member :
    (m : Meta) (f : Bytes) (v : Value) (ss : List StatRow)
    → in_stats f ss ≡ false
    → silent m ss ≡ true
    → silent (set_member m f v) ss ≡ true
unfolding silent in_stats
silent-set_member m f v [] h k = refl
silent-set_member m f v (s ∷ ss) h k = elim (Bool-cases (str_eq f s.member)) [
  | inl e ↦ absurd (ground arith)
  | inr e ↦ rw e (ground (arith, silent-set_member m f v ss))
]

parse_rows-other :
    (req : Request) (rs : List Row) (m : Meta) (n : ℕ) (f : Bytes)
    → in_rows f rs ≡ false
    → (parse_rows req rs m n).0 f ≡ m f
unfolding parse_rows in_rows
parse_rows-other req [] m n f h = refl
parse_rows-other req (r ∷ rs) m n f h = elim (Option-cases (getvar req r.header r.legacy)) [
  | inl e ↦ rw (e, parse_rows) (parse_rows-other req rs m n f (ground arith))
  | inr (v, e) ↦ elim (Bool-cases (str_eq r.field f)) [
    | inl q ↦ absurd (ground arith)
    | inr q ↦
        rw (e, parse_rows)
          (parse_rows-other req rs (set_member m r.field (parsed r.kind v)) (n + 1) f (ground arith)
            ∙ rw q)
  ]
]

report-parse_rows :
    (req : Request) (rs : List Row) (ss : List StatRow) (m : Meta) (n : ℕ)
    → aligned rs ss ≡ true
    → silent m ss ≡ true
    → report_rows ss (parse_rows req rs m n).0 ≡ wanted req rs ss
unfolding report_rows wanted aligned silent parse_rows
report-parse_rows req [] [] m n h k = refl
report-parse_rows req [] (s ∷ ss) m n h k = absurd (ground arith)
report-parse_rows req (r ∷ rs) [] m n h k = absurd (ground arith)
report-parse_rows req (r ∷ rs) (s ∷ ss) m n h k =
    let same : r.field ≡ s.member = str_eq→eq r.field s.member (ground arith) in
    let later : in_rows s.member rs ≡ false =
      subst (λ f. in_rows f rs ≡ false) same (ground arith) in
    elim (Option-cases (getvar req r.header r.legacy)) [
      | inl e ↦
          rw (e, parse_rows)
            (ap₂ ◌++◌
              (ap (reported s.test s.name) (parse_rows-other req rs m n s.member later)
                ∙ nil-is_nil (reported s.test s.name (m s.member)) (ground arith))
              (report-parse_rows req rs ss m n (ground arith) (ground arith)))
      | inr (v, e) ↦
          let m' : Meta = set_member m r.field (parsed r.kind v) in
          let hit : str_eq r.field s.member ≡ true = ground arith in
          let found : m' s.member ≡ parsed r.kind v =
            ap (λ b. if b then parsed r.kind v else m s.member) hit in
          rw (e, parse_rows)
            (ap₂ ◌++◌
              (ap (reported s.test s.name)
                (parse_rows-other req rs m' (n + 1) s.member later ∙ found))
              (report-parse_rows req rs ss m' (n + 1) (ground arith)
                (silent-set_member m r.field (parsed r.kind v) ss (ground arith) (ground arith))))
    ]

-- For a request with a version 2 header the statistics of the source are those that are wanted of
-- the request: each member of the tables is reported, in order, from its own header, and nothing
-- else is. For any other request there are none.
pub apply_icy2-wanted :
    (req : Request) → apply_icy2 req ≡ (if is_icy2 req then wanted req all_rows all_stats else [])
unfolding apply_icy2 copy_to_stats parse_headers
apply_icy2-wanted req =
    ap (λ l. if is_icy2 req then l else [])
      (report-parse_rows req all_rows all_stats meta_new 0 all_aligned new_silent)
