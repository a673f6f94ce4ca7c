-- ===== src/Mp3/Filled.antt =====
-- Text in a buffer of zero bytes: what the writes of `metadata_setup` do.
use mcaster1dnas.Refbuf.Copies.{take-all}
use mcaster1dnas.Refbuf.{put}
use mcaster1dnas.Mp3.Setup.{print_at, strlen}
use mcaster1dnas.Base.{
  ℕ, All, Bytes, [], ap, append_assoc, ap₂, arith, drop, false, if◌then◌else◌, leb, length,
  length-append, length-replicate, le→leb, refl, replicate, some, suc, sym, take, true, zero, ◌++◌,
  ◌+◌, ◌-◌, ◌<◌, ◌==◌, ◌∙◌, ◌∷◌, ◌≡◌, ◌≤◌,
}

-- A buffer that begins with a text and is zero behind it.
abbrev pub filled : Bytes → ℕ → Bytes
filled pre size = pre ++ replicate (size - length pre) 0

-- Bytes of C strings.
abbrev pub IsText : Bytes → Type 0
IsText s = All (λ c. 0 < c) s

same_zeros : (a b : ℕ) → a ≡ b → replicate {A = ℕ} a 0 ≡ replicate b 0
same_zeros a b e = ap (λ k. replicate k 0) e

drop-replicate : (n m : ℕ) → drop {A = ℕ} n (replicate m 0) ≡ replicate (m - n) 0
drop-replicate zero m = same_zeros m (m - 0) (omega arith)
drop-replicate (suc n) zero = same_zeros 0 (0 - suc n) (omega arith)
drop-replicate (suc n) (suc m) =
    drop-replicate n m ∙ same_zeros (m - n) (suc m - suc n) (omega arith)

drop-append_more : (n : ℕ) (xs ys : Bytes) → drop (length xs + n) (xs ++ ys) ≡ drop n ys
drop-append_more n [] ys = let e : 0 + n ≡ n = omega arith in ap (λ k. drop k ys) e
drop-append_more n (x ∷ xs) ys =
    let e : suc (length xs) + n ≡ suc (length xs + n) = omega arith in
    ap (λ k. drop k (x ∷ xs ++ ys)) e ∙ drop-append_more n xs ys

pub length-filled : (pre : Bytes) (size : ℕ) → length pre ≤ size → length (filled pre size) ≡ size
length-filled pre size h = omega (
  arith,
  length-append pre (replicate (size - length pre) 0),
  length-replicate {A = ℕ} (size - length pre) 0,
)

take-pre : (xs ys : Bytes) → take (length xs) (xs ++ ys) ≡ xs
take-pre [] ys = refl
take-pre (x ∷ xs) ys = ap (λ l. x ∷ l) (take-pre xs ys)

-- A text with its NUL is put behind the text that is there.
pub put-filled :
    (pre text : Bytes) (size : ℕ)
    → length pre + length text < size
    → put (filled pre size) (length pre) (text ++ (0 ∷ [])) ≡ some (filled (pre ++ text) size)
put-filled pre text size h =
    let n : length (text ++ (0 ∷ [])) ≡ suc (length text) =
      omega (arith, length-append text (0 ∷ [])) in
    let fits : leb (length pre + length (text ++ (0 ∷ []))) (length (filled pre size)) ≡ true =
      le→leb _ _ (omega (arith, n, length-filled pre size (omega arith))) in
    let zeros : drop (length pre + length (text ++ (0 ∷ []))) (filled pre size)
        ≡ replicate (size - length (pre ++ text) - 1) 0 =
      drop-append_more (length (text ++ (0 ∷ []))) pre (replicate (size - length pre) 0)
      ∙ drop-replicate (length (text ++ (0 ∷ []))) (size - length pre)
      ∙ same_zeros _ _ (omega (arith, n, length-append pre text)) in
    let joined : take (length pre) (filled pre size)
          ++ (text ++ (0 ∷ []))
          ++ drop (length pre + length (text ++ (0 ∷ []))) (filled pre size)
        ≡ filled (pre ++ text) size =
      ap₂ (λ a z. a ++ (text ++ (0 ∷ [])) ++ z) (take-pre pre (replicate (size - length pre) 0))
        zeros
      ∙ ap (λ l. l ++ replicate (size - length (pre ++ text) - 1) 0)
          (sym (append_assoc pre text (0 ∷ [])))
      ∙ append_assoc (pre ++ text) (0 ∷ []) (replicate (size - length (pre ++ text) - 1) 0)
      ∙ ap (λ k. (pre ++ text) ++ replicate k 0) {y = size - length (pre ++ text)}
          (one_more (pre ++ text) size (omega (arith, length-append pre text))) in
    rw fits (ap some joined)
  where
    one_more :
        (l : Bytes) (size : ℕ) → length l < size → suc (size - length l - 1) ≡ size - length l
    one_more l size h = omega arith

-- `snprintf` of a text for which there is room.
pub print_at-filled :
    (pre text : Bytes) (size room : ℕ)
    → length pre + length text < size
    → room ≡ size - length pre
    → print_at (filled pre size) (length pre) room text ≡ some (filled (pre ++ text) size)
print_at-filled pre text size room h e =
    let z : (room == 0) ≡ false = ground arith in
    let all : take (room - 1) text ≡ text = take-all (room - 1) text (omega arith) in
    ap
      (λ b.
        if b
        then some (filled pre size)
        else put (filled pre size) (length pre) (take (room - 1) text ++ (0 ∷ [])))
      z
    ∙ ap (λ t. put (filled pre size) (length pre) (t ++ (0 ∷ []))) all
    ∙ put-filled pre text size h

pub strlen-zeros :
    (pre : Bytes) (k : ℕ) → IsText pre → strlen (pre ++ replicate (suc k) 0) ≡ length pre
unfolding strlen
strlen-zeros [] k t = refl
strlen-zeros (x ∷ pre) k t =
    let z : (x == 0) ≡ false = ground (arith, t.0) in rw z (ap suc (strlen-zeros pre k t.1))

-- The end of a text in such a buffer.
pub strlen-filled :
    (pre : Bytes) (size : ℕ)
    → IsText pre
    → length pre < size
    → strlen (filled pre size) ≡ length pre
strlen-filled pre size t h =
    let e : size - length pre ≡ suc (size - length pre - 1) = omega arith in
    ap (λ k. strlen (pre ++ replicate k 0)) e ∙ strlen-zeros pre (size - length pre - 1) t
