-- ===== src/Source/Blocks.antt =====
-- What queued blocks measure, from any block on.
use mcaster1dnas.Base.{
  ℕ, List, [], ap, arith, drop, get_elem?, length, refl, some, subst, suc, zero, ◌++◌, ◌+◌, ◌-◌,
  ◌<◌, ◌∷◌, ◌≡◌, ◌≤◌,
}
use mcaster1dnas.Source.{Block}

module _ {ℓ} {A : Type ℓ} where
  pub drop-append : (k : ℕ) (xs ys : List A) → k ≤ length xs → drop k (xs ++ ys) ≡ drop k xs ++ ys
  drop-append zero xs ys h = refl
  drop-append (suc k) [] ys h = absurd (omega arith)
  drop-append (suc k) (x ∷ xs) ys h = drop-append k xs ys (omega arith)

  pub drop-drop : (k j : ℕ) (xs : List A) → drop j (drop k xs) ≡ drop (k + j) xs
  drop-drop zero j xs = let e : 0 + j ≡ j = omega arith in rw e refl
  drop-drop (suc k) zero [] = let e : suc k + 0 ≡ suc (k + 0) = omega arith in rw e refl
  drop-drop (suc k) (suc j) [] = let e : suc k + suc j ≡ suc (k + suc j) = omega arith in rw e refl
  drop-drop (suc k) j (x ∷ xs) =
      let e : suc k + j ≡ suc (k + j) = omega arith in rw e (drop-drop k j xs)

  pub drop-all : (k : ℕ) (xs : List A) → length xs ≤ k → drop k xs ≡ []
  drop-all zero [] h = refl
  drop-all zero (x ∷ xs) h = absurd (omega arith)
  drop-all (suc k) [] h = refl
  drop-all (suc k) (x ∷ xs) h = drop-all k xs (omega arith)

  pub drop-suc :
      (k : ℕ) (xs : List A) (b : A) (l : List A) → drop k xs ≡ b ∷ l → drop (suc k) xs ≡ l
  drop-suc zero [] b l h = absurd (ground arith)
  drop-suc zero (x ∷ xs) b l h = ground arith
  drop-suc (suc k) [] b l h = absurd (ground arith)
  drop-suc (suc k) (x ∷ xs) b l h = drop-suc k xs b l h

  pub drop-lt :
      (k : ℕ) (xs : List A) (b : A) (l : List A) → drop k xs ≡ b ∷ l → k + length l < length xs
  drop-lt zero [] b l h = absurd (ground arith)
  drop-lt zero (x ∷ xs) b l h = omega (arith, ap length h)
  drop-lt (suc k) [] b l h = absurd (ground arith)
  drop-lt (suc k) (x ∷ xs) b l h = omega (arith, drop-lt k xs b l h)

  pub drop-get :
      (k : ℕ) (xs : List A) (b : A) → get_elem? xs k ≡ some b → drop k xs ≡ b ∷ drop (suc k) xs
  drop-get k [] b h = absurd (ground arith)
  drop-get zero (x ∷ xs) b h = ground arith
  drop-get (suc k) (x ∷ xs) b h = drop-get k xs b h

  pub get-drop :
      (k : ℕ) (xs : List A) (b : A) (l : List A) → drop k xs ≡ b ∷ l → get_elem? xs k ≡ some b
  get-drop zero [] b l h = absurd (ground arith)
  get-drop zero (x ∷ xs) b l h = ground arith
  get-drop (suc k) [] b l h = absurd (ground arith)
  get-drop (suc k) (x ∷ xs) b l h = get-drop k xs b l h

  pub get-lt : (k : ℕ) (xs : List A) (b : A) → get_elem? xs k ≡ some b → k < length xs
  get-lt k [] b h = absurd (ground arith)
  get-lt zero (x ∷ xs) b h = omega arith
  get-lt (suc k) (x ∷ xs) b h = omega (arith, get-lt k xs b h)

abbrev pub total : List Block → ℕ
total [] = 0
total (b ∷ l) = b.len + total l

-- The bytes from the `k`-th block on.
abbrev pub rest : List Block → ℕ → ℕ
rest all k = total (drop k all)

pub total-append : (xs ys : List Block) → total (xs ++ ys) ≡ total xs + total ys
total-append [] ys = omega arith
total-append (x ∷ xs) ys = omega (arith, total-append xs ys)

pub rest-append :
    (all : List Block) (k : ℕ) (r : Block)
    → k ≤ length all
    → rest (all ++ (r ∷ [])) k ≡ rest all k + r.len
rest-append all k r h =
    rw (drop-append k all (r ∷ []) h) (omega (arith, total-append (drop k all) (r ∷ [])))

pub rest-end : (all : List Block) (k : ℕ) → length all ≤ k → rest all k ≡ 0
rest-end all k h = rw (drop-all k all h) refl

pub rest-suc :
    (all : List Block) (k : ℕ) (b : Block) (l : List Block)
    → drop k all ≡ b ∷ l
    → rest all k ≡ b.len + rest all (suc k)
rest-suc all k b l h = rw (h, drop-suc k all b l h) refl

pub rest_mono_suc : (all : List Block) (k : ℕ) → rest all (suc k) ≤ rest all k
rest_mono_suc [] zero = omega arith
rest_mono_suc [] (suc k) = omega arith
rest_mono_suc (b ∷ all) zero = omega arith
rest_mono_suc (b ∷ all) (suc k) = rest_mono_suc all k

pub rest_mono : (all : List Block) (k d : ℕ) → rest all (k + d) ≤ rest all k
rest_mono all k zero = let e : k + 0 ≡ k = omega arith in rw e (omega arith)
rest_mono all k (suc d) =
    let e : k + suc d ≡ suc (k + d) = omega arith in
    rw e (omega (arith, rest_mono all k d, rest_mono_suc all (k + d)))

pub rest_le : (all : List Block) (k j : ℕ) → k ≤ j → rest all j ≤ rest all k
rest_le all k j h =
    let e : k + (j - k) ≡ j = omega arith in
    subst (λ n. rest all n ≤ rest all k) e (rest_mono all k (j - k))
