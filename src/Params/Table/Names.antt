-- ===== src/Params/Table/Names.antt =====
-- Names of headers of src/params.c, which are compared without regard to case.
use mcaster1dnas.Base.{
  ℕ, ==_iff, Bool-cases, Bytes, [], ap₂, arith, false, inl, inr, map, refl, sym, true, ◌∙◌, ◌∷◌,
  ◌≡◌,
}
use mcaster1dnas.Params.Table.{Param, clashes, lower, same_name}

pub same_name→eq : (a b : Bytes) → same_name a b ≡ true → map lower a ≡ map lower b
unfolding same_name
same_name→eq [] [] h = refl
same_name→eq [] (b ∷ s) h = cc
same_name→eq (a ∷ r) [] h = cc
same_name→eq (a ∷ r) (b ∷ s) h = ap₂ (λ x y. x ∷ y) (ground arith) (same_name→eq r s (ground arith))

pub eq→same_name : (a b : Bytes) → map lower a ≡ map lower b → same_name a b ≡ true
unfolding same_name
eq→same_name [] [] h = refl
eq→same_name [] (b ∷ s) h = cc
eq→same_name (a ∷ r) [] h = cc
eq→same_name (a ∷ r) (b ∷ s) h =
    let e : lower a ≡ lower b = cc in rw ((==_iff (lower a) (lower b)).1 e) (eq→same_name r s (cc))

pub same_name_refl : (a : Bytes) → same_name a a ≡ true
same_name_refl a = eq→same_name a a refl

pub same_name_sym : (a b : Bytes) → same_name a b ≡ same_name b a
same_name_sym a b = elim (Bool-cases (same_name a b)) [
  | inl e ↦ e ∙ sym (eq→same_name b a (sym (same_name→eq a b e)))
  | inr e ↦ elim (Bool-cases (same_name b a)) [
    | inl f ↦ eq→same_name a b (sym (same_name→eq b a f)) ∙ sym f
    | inr f ↦ e ∙ sym f
  ]
]

-- Two spellings of one name have the same spellings.
pub same_name_cong : (a b c : Bytes) → same_name a b ≡ true → same_name a c ≡ same_name b c
same_name_cong a b c h = elim (Bool-cases (same_name b c)) [
  | inl e ↦ eq→same_name a c (same_name→eq a b h ∙ same_name→eq b c e) ∙ sym e
  | inr e ↦ elim (Bool-cases (same_name a c)) [
    | inl f ↦ f ∙ sym (eq→same_name b c (sym (same_name→eq a b h) ∙ same_name→eq a c f))
    | inr f ↦ f ∙ sym e
  ]
]

-- An entry that a name replaces has the spellings of that name.
pub clashes_cong : (p q : Param) (n : Bytes) → clashes p q.name ≡ true → clashes p n ≡ clashes q n
clashes_cong p q [] h = refl
clashes_cong p q (c ∷ n) h = same_name_cong p.name q.name (c ∷ n) (clash q.name h)
  where
    clash : (m : Bytes) → clashes p m ≡ true → same_name p.name m ≡ true
    clash [] e = cc
    clash (d ∷ m) e = e

pub clashes_of_same :
    (p : Param) (c : ℕ) (m a : Bytes)
    → same_name a (c ∷ m) ≡ true
    → same_name p.name a ≡ true
    → clashes p a ≡ true
unfolding same_name
clashes_of_same p c m [] h e = cc
clashes_of_same p c m (d ∷ a) h e = e

-- An entry that a name leaves alone is found by no spelling of that name.
pub clashes_apart :
    (p q : Param) (n : Bytes) → clashes p q.name ≡ false → clashes q n ≡ true → clashes p n ≡ false
clashes_apart p q [] miss h = cc
clashes_apart p q (c ∷ m) miss h = elim (Bool-cases (same_name p.name (c ∷ m))) [
  | inl e ↦
      let same : same_name p.name q.name ≡ true =
        same_name_sym p.name q.name
        ∙ same_name_cong q.name (c ∷ m) p.name h
        ∙ same_name_sym (c ∷ m) p.name
        ∙ e in
      absurd (ground (arith, miss, clashes_of_same p c m q.name h same))
  | inr e ↦ e
]

pub clashes_same : (r : Param) (a b : Bytes) → same_name a b ≡ true → clashes r a ≡ clashes r b
unfolding same_name
clashes_same r [] [] h = refl
clashes_same r [] (d ∷ b) h = cc
clashes_same r (c ∷ a) [] h = cc
clashes_same r (c ∷ a) (d ∷ b) h =
    same_name_sym r.name (c ∷ a)
    ∙ same_name_cong (c ∷ a) (d ∷ b) r.name h
    ∙ same_name_sym (d ∷ b) r.name

pub clashes→same : (p : Param) (n : Bytes) → clashes p n ≡ true → same_name p.name n ≡ true
clashes→same p [] h = cc
clashes→same p (c ∷ n) h = h

pub clashes_sym : (p q : Param) → clashes p q.name ≡ false → clashes q p.name ≡ false
clashes_sym p q h = elim (Bool-cases (clashes q p.name)) [
  | inl e ↦ absurd (both p.name e (same_name_refl p.name))
  | inr e ↦ e
]
  where
    both : (n : Bytes) → clashes q n ≡ true → same_name p.name n ≡ true → ⊥
    both [] e s = cc
    both (c ∷ n) e s = ground (
      arith,
      h,
      clashes_of_same p c n q.name e
          (same_name_cong p.name (c ∷ n) q.name s ∙ same_name_sym (c ∷ n) q.name ∙ e),
    )
