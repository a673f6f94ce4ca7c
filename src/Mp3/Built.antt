-- ===== src/Mp3/Built.antt =====
-- src/format_mp3.c, lines 443 to 534: the writes of `metadata_setup` give the message.
use mcaster1dnas.Mp3.Sync.{IsFramed}
use mcaster1dnas.Source.{sub64}
use mcaster1dnas.Refbuf.{put}
use mcaster1dnas.Mp3.Message.{
  AreTexts, first_url, text_of, url_text, message, title_text, end_of_title, parts_le,
  title_line-text, length-url_text, title_text-IsText,
}
use mcaster1dnas.Mp3.Filled.{IsText, filled, print_at-filled, put-filled, length-filled}
use mcaster1dnas.Base.{
  ℕ, Bytes, Option, [], ap, append-nil, arith, codes, drop, length, length-append, ltb, lt→ltb,
  none, refl, replicate, some, suc, sym, true, ◌++◌, ◌+◌, ◌-◌, ◌<◌, ◌∙◌, ◌∷◌, ◌≡◌, Bool-cases, inl,
  inr, ltb→lt, ◌*◌, ◌/◌, ◌≤◌, ◌⊎◌,
}
use mcaster1dnas.Mp3.Setup.{
  Tags, choose_url, message_len, print_at, print_extra, print_next, print_url, stream_title, strlen,
  url_len, url_line, write_message, and_then, made, metadata_setup, too_long, write_line,
}

filled-nil : (size : ℕ) → replicate {A = ℕ} size 0 ≡ filled [] size
filled-nil size = let e : size ≡ size - 0 = omega arith in ap (λ k. replicate k 0) e

module _ (size : ℕ) (small : size < 5000) where
  print_next-filled :
      (pre text : Bytes)
      → length pre + length text < size
      → print_next (filled pre size) size (length pre) text
        ≡ some (filled (pre ++ text) size, length (pre ++ text))
  print_next-filled pre text h =
      rw (print_at-filled pre text size (sub64 size (length pre)) h (omega arith), print_next)
        (ap (λ n. some (filled (pre ++ text) size, n)) (sym (length-append pre text)))

  print_url-filled :
      (pre : Bytes) (u : Option Bytes)
      → length pre + length (url_text u) < size
      → print_url u (filled pre size) size (length pre)
        ≡ some (filled (pre ++ url_text u) size, length (pre ++ url_text u))
  print_url-filled pre none h = ap (λ l. some (filled l size, length l)) (sym (append-nil pre))
  print_url-filled pre (some u) h = print_next-filled pre (url_line u) h

  print_extra-filled :
      (pre : Bytes) (x : Option Bytes)
      → length pre + length (text_of x) < size
      → print_extra x (filled pre size) size (length pre) ≡ some (filled (pre ++ text_of x) size)
  print_extra-filled pre none h = ap (λ l. some (filled l size)) (sym (append-nil pre))
  print_extra-filled pre (some x) h =
      print_at-filled pre x size (sub64 size (length pre)) h (omega arith)

  -- The quote and the semicolon, where the string ends.
  close-filled :
      (n : ℕ) (s : Bytes)
      → IsText s
      → length ((n ∷ stream_title) ++ s) + 2 < size
      → put
          (filled ((n ∷ stream_title) ++ s) size)
          (14 + strlen (drop 14 (filled ((n ∷ stream_title) ++ s) size)))
          (codes "';" ++ (0 ∷ []))
        ≡ some (filled ((n ∷ stream_title) ++ s ++ codes "';") size)
  close-filled n s t h =
      let pre : Bytes = (n ∷ stream_title) ++ s in
      let e : size - length pre ≡ suc (size - length pre - 1) = omega arith in
      let at : 14 + strlen (drop 14 (filled pre size)) ≡ length pre =
        ap (λ k. 14 + strlen (drop 14 (pre ++ replicate k 0))) e
        ∙ ap (λ k. 14 + k) (end_of_title n (size - length pre - 1) s t)
        ∙ sym (length-append (n ∷ stream_title) s) in
      ap (λ k. put (filled pre size) k (codes "';" ++ (0 ∷ []))) at
      ∙ put-filled pre (codes "';") size (omega arith)

choose_url-first :
    (size r : ℕ) (u v : Option Bytes)
    → r + url_len u v < size
    → choose_url size r u v ≡ first_url u v
choose_url-first size r none v h = refl
choose_url-first size r (some u) v h =
    let e : ltb (length u + 13) (size - r) ≡ true = lt→ltb _ _ (omega arith) in rw e refl

then_some :
    {A B : Type 0} (o : Option A) (a : A) (f : A → Option B) → o ≡ some a → and_then o f ≡ f a
then_some o a f e = ap (λ x. and_then x f) e

-- The writes one after the other.
module _ (t : Tags) (n size : ℕ) (w : AreTexts t) (small : size < 5000)
    (h : message_len t < size) where
  abbrev title : Bytes
  title = title_text t.url_artist t.url_title

  abbrev line : Bytes
  line = (n ∷ stream_title) ++ title

  abbrev closed : Bytes
  closed = line ++ codes "';"

  abbrev url : Option Bytes
  url = first_url t.inline_url t.url

  line_len : length line ≡ 14 + length title
  line_len = length-append (n ∷ stream_title) title

  closed_len : length closed ≡ length line + 2
  closed_len = length-append line (codes "';")

  linked_len : length (closed ++ url_text url) ≡ length line + 2 + length (url_text url)
  linked_len = omega (arith, closed_len, length-append closed (url_text url))

  first_write : print_at (replicate size 0) 0 size line ≡ some (filled line size)
  first_write =
      ap (λ m. print_at m 0 size line) (filled-nil size)
      ∙ print_at-filled [] line size size (omega (arith, line_len, parts_le t)) (omega arith)

  second_write :
      put (filled line size) (14 + strlen (drop 14 (filled line size))) (codes "';" ++ (0 ∷ []))
      ≡ some (filled closed size)
  second_write =
      close-filled size small n title (title_text-IsText t.url_artist t.url_title w.artist w.title)
        (omega (arith, line_len, parts_le t))

  third_write :
      print_url
        (choose_url size (length line + 2) t.inline_url t.url)
        (filled closed size)
        size
        (length line + 2)
      ≡ some (filled (closed ++ url_text url) size, length (closed ++ url_text url))
  third_write =
      ap (λ v. print_url v (filled closed size) size (length line + 2))
        (choose_url-first size (length line + 2) t.inline_url t.url
          (omega (arith, line_len, parts_le t, length-url_text t.inline_url t.url)))
      ∙ ap (λ k. print_url url (filled closed size) size k) (sym closed_len)
      ∙ print_url-filled size small closed url (omega (arith, line_len, closed_len, parts_le t))

  last_write :
      print_extra t.extra
        (filled (closed ++ url_text url) size)
        size
        (length (closed ++ url_text url))
      ≡ some (filled (message n t) size)
  last_write =
      print_extra-filled size small (closed ++ url_text url) t.extra
        (omega (arith, line_len, linked_len, parts_le t))

  pub write_message-filled : write_message t n size ≡ some (filled (message n t) size)
  unfolding write_message
  write_message-filled =
      ap (λ l. write_line l t size) (title_line-text n t.url_artist t.url_title)
      ∙ then_some _ (filled line size) _ first_write
      ∙ then_some _ (filled closed size) _ second_write
      ∙ then_some _ (filled (closed ++ url_text url) size, length (closed ++ url_text url)) _
          third_write
      ∙ last_write

message_le : (t : Tags) (n : ℕ) → length (message n t) ≤ message_len t
message_le t n =
    let line : Bytes = (n ∷ stream_title) ++ title_text t.url_artist t.url_title in
    let linked : Bytes = line ++ codes "';" ++ url_text (first_url t.inline_url t.url) in
    omega (
      arith,
      parts_le t,
      length-append (n ∷ stream_title) (title_text t.url_artist t.url_title),
      length-append line (codes "';"),
      length-append (line ++ codes "';") (url_text (first_url t.inline_url t.url)),
      length-append linked (text_of t.extra),
    )

filled-IsFramed :
    (n : ℕ) (t : Tags) → message_len t ≤ n * 16 → IsFramed (filled (message n t) (n * 16 + 1))
filled-IsFramed n t h =
    omega (arith, length-filled (message n t) (n * 16 + 1) (omega (arith, message_le t n)))

-- The number of units of 16 bytes for a message.
abbrev pub units : Tags → ℕ
units t = (message_len t - 1) / 16 + 1

message_len_pos : (t : Tags) → 0 < message_len t
unfolding message_len
message_len_pos t = omega arith

-- A message of at most 4080 bytes is written whole into its block, without a write outside, and the
-- block says its own length; a longer one is given up.
pub metadata_setup-message :
    (t : Tags)
    → AreTexts t
    → ((4080 < message_len t) × (metadata_setup t ≡ too_long))
      ⊎ ((message_len t ≤ 4080)
          × (metadata_setup t ≡ made (some (filled (message (units t) t) (units t * 16 + 1))))
          × IsFramed (filled (message (units t) t) (units t * 16 + 1)))
unfolding metadata_setup
metadata_setup-message t w = elim (Bool-cases (ltb (255 * 16) (message_len t))) [
  | inl e ↦ inl (ltb→lt _ _ e, rw (e, metadata_setup) refl)
  | inr e ↦
      let le : message_len t ≤ 4080 = ground arith in
      inr (
        le,
        rw (e, metadata_setup)
            (ap made (
              write_message-filled t (units t) (units t * 16 + 1) w (omega arith)
                (omega (arith, message_len_pos t)))),
        filled-IsFramed (units t) t (omega (arith, message_len_pos t)),
      )
]
