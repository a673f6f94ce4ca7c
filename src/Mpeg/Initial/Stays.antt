-- ===== src/Mpeg/Initial/Stays.antt =====
-- The check for tags within the block.
use mcaster1dnas.Mpeg.Handle.{byte}
use mcaster1dnas.Mpeg.Detect.Answers.{Answer, detected, wait, overrun}
use mcaster1dnas.Base.{
  ℕ, Bool, Bytes, arith, codes, drop, false, if-cases, if◌then◌else◌, length, length-append,
  length-drop, length-replicate, ltb, refl, replicate, ◌%◌, ◌&&◌, ◌==◌, ◌∙◌, ◌≡◌, ◌≢◌, ◌≤◌,
}
use mcaster1dnas.Mpeg.Sync.{Sync}
use mcaster1dnas.Mpeg.Initial.{
  check_for_id3, ape_len, ape_tag, id3_size, id3v1_tag, id3v2_tag, starts, wiped,
}

record Stays (p : Bytes) (r : Answer × Sync × Bytes) : Type 0 where
  inside : (r.0 ≢ overrun) × (length (r.2) ≡ length p)

Stays-if :
    (p : Bytes) (c : Bool) (x y : Answer × Sync × Bytes)
    → Stays p x
    → (c ≡ false → Stays p y)
    → Stays p (if c then x else y)
Stays-if p c x y h k = if-cases (Stays p) c x y (λ _. h) k

waits : (p : Bytes) (mp : Sync) → Stays p (wait, mp, p)
waits p mp = record { inside = (λ e. absurd (ground arith), refl) }

finds : (p : Bytes) (mp : Sync) → Stays p (detected, mp, p)
finds p mp = record { inside = (λ e. absurd (ground arith), refl) }

wiped-Stays : (mp : Sync) (p : Bytes) (n : ℕ) → n ≤ length p → Stays p (wiped mp p n)
unfolding wiped
wiped-Stays mp p n h =
    if-cases (Stays p) (ltb (length p) n) _ _ (λ e. absurd (ground arith))
      (λ _. record {
        inside = (
          λ e. absurd (ground arith),
          length-append (replicate n 0) (drop n p)
              ∙ omega (arith, length-replicate {A = ℕ} n 0, length-drop n p),
        );
      })

ape_tag-Stays : (mp : Sync) (p : Bytes) (n : ℕ) → n ≤ length p → Stays p (ape_tag mp p n)
unfolding ape_tag
ape_tag-Stays mp p n h = Stays-if p (ltb n (ape_len p)) _ _ (waits p mp) (λ e.
    Stays-if p mp.keep_meta _ _ (finds p _) (λ _. wiped-Stays mp p (ape_len p) (ground arith)))

id3v1_tag-Stays : (mp : Sync) (p : Bytes) (n : ℕ) → n ≤ length p → Stays p (id3v1_tag mp p n)
unfolding id3v1_tag
id3v1_tag-Stays mp p n h =
    Stays-if p (ltb n 128) _ _ (waits p mp)
      (λ e. Stays-if p mp.keep_meta _ _ (finds p _) (λ _. wiped-Stays mp p 128 (ground arith)))

id3v2_tag-Stays : (mp : Sync) (p : Bytes) (n : ℕ) → Stays p (id3v2_tag mp p n)
unfolding id3v2_tag
id3v2_tag-Stays mp p n = Stays-if p (ltb n (id3_size p)) _ _ (finds p _) (λ _. finds p _)

check_for_id3-Stays :
    (mp : Sync) (p : Bytes) (n : ℕ) → n ≤ length p → Stays p (check_for_id3 mp p n)
unfolding check_for_id3
check_for_id3-Stays mp p n h = Stays-if p (ltb n 16) _ _ (waits p mp) (λ e.
    if-cases (Stays p) (ltb (length p) 16) _ _ (λ k. absurd (ground arith))
      (λ _. Stays-if p (starts (codes "APETAGEX") p) _ _ (ape_tag-Stays mp p n h) (λ _.
        Stays-if p (starts (codes "TAG") p) _ _ (id3v1_tag-Stays mp p n h) (λ _.
          Stays-if p
            (starts (codes "ID3") p
              && ltb (byte p 3) 0xFF
              && ltb (byte p 4) 0xFF
              && (byte p 5 % 16 == 0))
            _ _ (id3v2_tag-Stays mp p n)
            (λ _. record { inside = (λ e. absurd (ground arith), refl) })))))

-- `check_for_id3` neither reads nor wipes outside the block, and the block keeps its length, where
-- no more bytes are said to be left than there are.
pub check_for_id3-inside :
    (mp : Sync) (p : Bytes) (remaining : ℕ)
    → remaining ≤ length p
    → ((check_for_id3 mp p remaining).0 ≢ overrun)
      × (length ((check_for_id3 mp p remaining).2) ≡ length p)
check_for_id3-inside mp p remaining h = let k = check_for_id3-Stays mp p remaining h in k.inside
