-- ===== src/Refbuf/Copies.antt =====
-- src/refbuf.c, lines 94 to 118 and 152 to 185: copies of buffers, and text that is appended.
use mcaster1dnas.Refbuf.Chain.{load-set_self, load-lt}
use mcaster1dnas.Base.{
  ℕ, [], length, refl, some, take, ◌++◌, ◌∷◌, ◌≡◌, ◌≤◌, Bool-cases, Bytes, ap, append_assoc, arith,
  if◌then◌else◌, inl, inr, le→leb, ltb, suc, zero, ◌+◌, ◌-◌, ◌<◌, ◌∙◌, Option, append-nil, drop,
  length-append, length-drop, length-take, none, sym, ◌==◌, false,
}
use mcaster1dnas.Refbuf.{
  Refbuf, Heap, fresh, load, refbuf_copy, refbuf_new, refbuf_appendv, refbuf_copy_default,
  copy_links, save,
}

load-append : (h : Heap) (b : Refbuf) → load (h ++ (some b ∷ [])) (length h) ≡ some b
load-append [] b = refl
load-append (x ∷ h) b = load-append h b

-- A copy is a buffer of its own with the bytes of the original and one reference; it has no
-- associated buffers and no flags. The buffers that were there stay as they are.
pub refbuf_copy-fresh :
    (h : Heap) (a : ℕ) (b : Refbuf)
    → load h a ≡ some b
    → b.len ≤ length b.memory
    → (refbuf_copy h (some a)
        ≡ some (h ++ (some (fresh (take b.len b.memory)) ∷ []), some (length h)))
      × (load (h ++ (some (fresh (take b.len b.memory)) ∷ [])) (length h)
          ≡ some (fresh (take b.len b.memory)))
unfolding refbuf_copy refbuf_new
refbuf_copy-fresh h a b e n = (
  rw (e, le→leb b.len (length b.memory) n, refbuf_copy) refl,
  load-append h (fresh (take b.len b.memory)),
)

-- The text that is appended if there is room for it with a NUL.
abbrev pub room_text : ℕ → Bytes → Bytes
room_text remain text = if ltb (length text) remain then text else []

take-append_more : (xs ys : Bytes) (m : ℕ) → take (length xs + m) (xs ++ ys) ≡ xs ++ take m ys
take-append_more [] ys m = let e : 0 + m ≡ m = omega arith in rw e refl
take-append_more (x ∷ xs) ys m =
    let e : suc (length xs) + m ≡ suc (length xs + m) = omega arith in
    rw e (ap (λ l. x ∷ l) (take-append_more xs ys m))

take-append_self : (xs ys : Bytes) → take (length xs) (xs ++ ys) ≡ xs
take-append_self [] ys = refl
take-append_self (x ∷ xs) ys = ap (λ l. x ∷ l) (take-append_self xs ys)

pub take-all : (n : ℕ) (xs : Bytes) → length xs ≤ n → take n xs ≡ xs
take-all zero [] h = refl
take-all zero (x ∷ xs) h = absurd (omega arith)
take-all (suc n) [] h = refl
take-all (suc n) (x ∷ xs) h = ap (λ l. x ∷ l) (take-all n xs (omega arith))

-- What is in use of the memory after a write behind `pre`.
put-in_use :
    (pre text rest : Bytes) (remain : ℕ)
    → 0 < remain
    → take
        (length pre + length (room_text remain text))
        (pre ++ (take (remain - 1) text ++ (0 ∷ [])) ++ rest)
      ≡ pre ++ room_text remain text
put-in_use pre text rest remain h =
    ap (take (length pre + length (room_text remain text)))
      (append_assoc pre (take (remain - 1) text ++ (0 ∷ [])) rest)
    ∙ take-append_more pre ((take (remain - 1) text ++ (0 ∷ [])) ++ rest)
        (length (room_text remain text))
    ∙ ap (λ l. pre ++ l)
        (elim (Bool-cases (ltb (length text) remain)) [
          | inl t ↦ rw t (
              ap (λ l. take (length text) ((l ++ (0 ∷ [])) ++ rest))
                (take-all (remain - 1) text (ground arith))
              ∙ ap (take (length text)) (append_assoc text (0 ∷ []) rest)
              ∙ take-append_self text ((0 ∷ []) ++ rest))
          | inr t ↦ rw t refl
        ])

-- What holds after text was appended to a buffer whose memory has `max_len` bytes at least.
pub record Appended (b : Refbuf) (max_len : ℕ) (text : Bytes) (c : Refbuf) : Type 0 where
  pub memory_len : length c.memory ≡ length b.memory
  pub len : c.len ≡ b.len + length (room_text (max_len - b.len) text)
  pub len_le : c.len ≤ max_len
  pub in_use : take c.len c.memory ≡ take b.len b.memory ++ room_text (max_len - b.len) text

length-put :
    (m : Bytes) (at : ℕ) (bytes : Bytes)
    → at + length bytes ≤ length m
    → length (take at m ++ bytes ++ drop (at + length bytes) m) ≡ length m
length-put m at bytes h = omega (
  arith,
  length-append (take at m ++ bytes) (drop (at + length bytes) m),
  length-append (take at m) bytes,
  length-take at m,
  length-drop (at + length bytes) m,
)

rest_pos : (a b : ℕ) → (a - b == 0) ≡ false → 0 < a - b
rest_pos a b h = ground arith

used-room :
    (remain n : ℕ) (text : Bytes)
    → (if ltb (length text) remain then n + length text else n) ≡ n + length (room_text remain text)
used-room remain n text = elim (Bool-cases (ltb (length text) remain)) [
  | inl t ↦ rw t refl
  | inr t ↦ rw t (omega arith)
]

length-room_text : (remain : ℕ) (text : Bytes) → length (room_text remain text) ≤ remain
length-room_text remain text = elim (Bool-cases (ltb (length text) remain)) [
  | inl t ↦ rw t (ground arith)
  | inr t ↦ rw t (omega arith)
]

-- Text is appended whole or not at all, and never behind `max_len` bytes: the bytes in use are
-- those before and the text, if it fits with a NUL, and else those before alone. The result is the
-- length of the text, or -1 where no byte was left.
pub refbuf_appendv-Appended :
    (b : Refbuf) (max_len : ℕ) (text : Bytes)
    → b.len ≤ max_len
    → max_len ≤ length b.memory
    → (c : Refbuf) × (r : Option ℕ) × (refbuf_appendv b max_len text ≡ some (c, r))
      × Appended b max_len text c
unfolding refbuf_appendv
refbuf_appendv-Appended b max_len text h k = elim (Bool-cases (max_len - b.len == 0)) [
  | inl t ↦
      let z : max_len - b.len ≡ 0 = ground arith in
      let nothing : room_text (max_len - b.len) text ≡ [] = ground arith in
      (
        b,
        none,
        rw (t, refbuf_appendv) refl,
        record {
          memory_len = refl;
          len = omega (arith, ap length nothing);
          len_le = h;
          in_use =
              sym (append-nil (take b.len b.memory))
              ∙ ap (λ l. take b.len b.memory ++ l) (sym nothing);
        },
      )
  | inr t ↦
      let bytes : Bytes = take (max_len - b.len - 1) text ++ (0 ∷ []) in
      let n : b.len + length bytes ≤ length b.memory = omega (
        arith,
        length-append (take (max_len - b.len - 1) text) (0 ∷ []),
        length-take (max_len - b.len - 1) text,
        rest_pos max_len b.len t,
      ) in
      let m : Bytes = take b.len b.memory ++ bytes ++ drop (b.len + length bytes) b.memory in
      let used : ℕ = if ltb (length text) (max_len - b.len) then b.len + length text else b.len in
      let u : used ≡ b.len + length (room_text (max_len - b.len) text) =
        used-room (max_len - b.len) b.len text in
      let pre : length (take b.len b.memory) ≡ b.len = omega (arith, length-take b.len b.memory) in
      (
        record b { memory = m; len = used },
        some (length text),
        rw (t, le→leb _ _ n, refbuf_appendv) refl,
        record {
          memory_len = length-put b.memory b.len bytes n;
          len = u;
          len_le = omega (arith, u, length-room_text (max_len - b.len) text);
          in_use =
              ap (λ k. take k m)
                (u ∙ ap (λ k. k + length (room_text (max_len - b.len) text)) (sym pre))
              ∙ put-in_use (take b.len b.memory) text (drop (b.len + length bytes) b.memory)
                  (max_len - b.len) (rest_pos max_len b.len t);
        },
      )
]

load-append_old :
    (h : Heap) (k : Heap) (x : ℕ) (d : Refbuf) → load h x ≡ some d → load (h ++ k) x ≡ some d
load-append_old [] k x d e = absurd (ground arith)
load-append_old (y ∷ h) k zero d e = e
load-append_old (y ∷ h) k (suc x) d e = load-append_old h k x d e

copy_links-end :
    (fuel : ℕ) (g : Heap) (ref p : Option ℕ) → p ≡ none → copy_links fuel g ref p ≡ some g
unfolding copy_links
copy_links-end zero g ref p e = rw e refl
copy_links-end (suc fuel) g ref p e = rw e refl

copy_links-one :
    (fuel r x : ℕ) (g : Heap) (d c : Refbuf)
    → load g x ≡ some d
    → d.associated ≡ none
    → load g r ≡ some c
    → copy_links (suc fuel) g (some r) (some x) ≡ some (save g r (record c { associated = none }))
unfolding copy_links refbuf_copy
copy_links-one fuel r x g d c f z l =
    rw (f, z, l, copy_links)
      (copy_links-end fuel (save g r (record c { associated = none })) none d.associated z)

-- `refbuf_copy_default` of a buffer with one associated buffer, which has none, gives a buffer
-- without any: the first associated buffer is not copied.
pub refbuf_copy_default-loses_first :
    (fuel a x : ℕ) (h : Heap) (b d : Refbuf)
    → load h a ≡ some b
    → b.len ≤ length b.memory
    → b.associated ≡ some x
    → load h x ≡ some d
    → d.associated ≡ none
    → (g : Heap) × (refbuf_copy_default (suc fuel) h (some a) ≡ some (g, some (length h)))
      × (load g (length h) ≡ some (fresh (take b.len b.memory)))
unfolding refbuf_copy_default
refbuf_copy_default-loses_first fuel a x h b d e n l f z =
    let c : Refbuf = fresh (take b.len b.memory) in
    let g : Heap = h ++ (some c ∷ []) in
    let (copied, at) = refbuf_copy-fresh h a b e n in
    let links : copy_links (suc fuel) g (some (length h)) b.associated
        ≡ some (save g (length h) c) =
      ap (copy_links (suc fuel) g (some (length h))) l
      ∙ copy_links-one fuel (length h) x g d c (load-append_old h (some c ∷ []) x d f) z at in
    (
      save g (length h) c,
      rw (e, copied, links, refbuf_copy_default) refl,
      load-set_self g (length h) (some c) (load-lt g (length h) c at),
    )
