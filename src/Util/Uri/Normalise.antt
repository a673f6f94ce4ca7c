-- ===== src/Util/Uri/Normalise.antt =====
-- util_normalise_uri: what an accepted path looks like, and what its loop does to double slashes.
use mcaster1dnas.Base.{
  ℕ, Bool-cases, Bytes, Option, [], ap, arith, false, inl, inr, none, refl, some, true, ◌++◌, ◌==◌,
  ◌∙◌, ◌∷◌, ◌≡◌,
}
use mcaster1dnas.Util.Uri.{
  normalise_uri, collapse, collapse_from, decoded, has_double, url_unescape, verify_path,
}
use mcaster1dnas.Util.Uri.Verify.{Traverses, verify_path_iff}

abbrev pub first_byte : Bytes → Option ℕ
first_byte [] = none
first_byte (c ∷ s) = some c

collapse_from-clean : (c : ℕ) (r : Bytes) → has_double (collapse_from c r) ≡ false
unfolding collapse_from
collapse_from-clean c [] = refl
collapse_from-clean c (d ∷ r) = elim (Bool-cases (has_double (c ∷ d ∷ r))) [
  | inl e ↦ rw (e, collapse_from) (collapse_from-clean c r)
  | inr e ↦ rw (e, collapse_from) e
]

first_byte-collapse_from : (c : ℕ) (r : Bytes) → first_byte (collapse_from c r) ≡ some c
unfolding collapse_from
first_byte-collapse_from c [] = refl
first_byte-collapse_from c (d ∷ r) = elim (Bool-cases (has_double (c ∷ d ∷ r))) [
  | inl e ↦ rw (e, collapse_from) (first_byte-collapse_from c r)
  | inr e ↦ rw (e, collapse_from) refl
]

-- The first slash of a URI is never part of an escape.
url_unescape-slash : (s : Bytes) → (r : Bytes) × (url_unescape (b'/' ∷ s) ≡ b'/' ∷ r)
unfolding url_unescape decoded
url_unescape-slash [] = ([], refl)
url_unescape-slash (a ∷ []) = (a ∷ [], refl)
url_unescape-slash (a ∷ b ∷ s) = (url_unescape (a ∷ b ∷ s), refl)

-- What `util_normalise_uri` makes of `/` and the bytes `s`.
abbrev pub path_of : Bytes → Bytes
path_of s = collapse (url_unescape (b'/' ∷ s))

path_of-slash : (s : Bytes) → first_byte (path_of s) ≡ some b'/'
unfolding collapse
path_of-slash s = let (r, e) = url_unescape-slash s in rw e (first_byte-collapse_from b'/' r)

path_of-clean : (s : Bytes) → has_double (path_of s) ≡ false
unfolding collapse
path_of-clean s = let (r, e) = url_unescape-slash s in rw e (collapse_from-clean b'/' r)

normalise_uri-eq-some :
    (u p : Bytes)
    → normalise_uri u ≡ some p
    → (s : Bytes) × (u ≡ b'/' ∷ s) × (p ≡ path_of s) × (verify_path p ≡ true)
unfolding normalise_uri
normalise_uri-eq-some [] p h = cc
normalise_uri-eq-some (c ∷ s) p h = elim (Bool-cases (c == b'/')) [
  | inl e ↦ elim (Bool-cases (verify_path (collapse (url_unescape (c ∷ s))))) [
    | inl v ↦
        let k : c ≡ b'/' = ground arith in
        let q : p ≡ collapse (url_unescape (c ∷ s)) = ground arith in
        (s, ground arith, q ∙ ap (λ d. collapse (url_unescape (d ∷ s))) k, rw q v)
    | inr v ↦ absurd (ground arith)
  ]
  | inr e ↦ absurd (ground arith)
]

-- A path that `util_normalise_uri` accepts begins with `/`, holds no `//`, and nowhere goes up
-- or stays by a component of dots before another separator.
pub normalise_uri-IsSafe :
    (u p : Bytes)
    → normalise_uri u ≡ some p
    → (first_byte p ≡ some b'/') × (has_double p ≡ false) × ¬ Traverses p
normalise_uri-IsSafe u p h =
    let (s, a, b, v) = normalise_uri-eq-some u p h in
    (rw b (path_of-slash s), rw b (path_of-clean s), ((verify_path_iff p).0 v).1)

has_double-cons-double : (c : ℕ) (s t : Bytes) → has_double (c ∷ s ++ b'/' ∷ b'/' ∷ t) ≡ true
has_double-cons-double c [] t = ground arith
has_double-cons-double c (d ∷ s) t = ground (arith, has_double-cons-double d s t)

collapse_from-double :
    (s t : Bytes)
    → has_double (b'/' ∷ t) ≡ false
    → collapse_from b'/' (s ++ b'/' ∷ b'/' ∷ t) ≡ b'/' ∷ t
unfolding collapse_from
collapse_from-double [] [] h = refl
collapse_from-double [] (d ∷ t) h = rw (h, collapse_from)
collapse_from-double (d ∷ s) t h =
    rw (has_double-cons-double b'/' (d ∷ s) t, collapse_from) (collapse_from-double s t h)

-- The loop of `util_normalise_uri` takes bytes off the start of the path, not from the double
-- slash: `/s//t` becomes `/t`, for every `s`, if `/t` holds no double slash.
pub collapse_drops_prefix :
    (s t : Bytes)
    → has_double (b'/' ∷ t) ≡ false
    → collapse (b'/' ∷ s ++ b'/' ∷ b'/' ∷ t) ≡ b'/' ∷ t
unfolding collapse
collapse_drops_prefix s t h = collapse_from-double s t h
