-- ===== src/Mp3/Message.antt =====
-- src/format_mp3.c, lines 409 to 560: what the metadata block for Shoutcast clients contains.
use mcaster1dnas.Mp3.Filled.{IsText, strlen-zeros}
use mcaster1dnas.Base.{
  ℕ, All-append, Bytes, Option, [], ap, append-nil, append_assoc, arith, codes, drop, length,
  length-append, none, refl, replicate, some, suc, sym, ◌++◌, ◌+◌, ◌<◌, ◌∙◌, ◌∷◌, ◌≡◌, ◌≤◌,
}
use mcaster1dnas.Mp3.Setup.{
  Tags, dash_len, message_len, size_of, stream_title, strlen, title_line, url_len, url_line,
}

-- The text of the title.
abbrev pub title_text : Option Bytes → Option Bytes → Bytes
title_text (some a) (some t) = a ++ codes " - " ++ t
title_text none (some t) = t
title_text a none = []

abbrev pub url_text : Option Bytes → Bytes
url_text none = []
url_text (some u) = url_line u

abbrev pub text_of : Option Bytes → Bytes
text_of none = []
text_of (some s) = s

-- The URL of the stream, or else that of the source.
abbrev pub first_url : Option Bytes → Option Bytes → Option Bytes
first_url none v = v
first_url (some u) v = some u

-- The message as it should be.
abbrev pub message : ℕ → Tags → Bytes
message n t =
    (n ∷ stream_title)
    ++ title_text t.url_artist t.url_title
    ++ codes "';"
    ++ url_text (first_url t.inline_url t.url)
    ++ text_of t.extra

-- Strings without NUL.
pub record AreTexts (t : Tags) : Type 0 where
  pub artist : IsText (text_of t.url_artist)
  pub title : IsText (text_of t.url_title)

pub title_line-text :
    (n : ℕ) (a t : Option Bytes) → title_line n a t ≡ (n ∷ stream_title) ++ title_text a t
unfolding title_line
title_line-text n (some a) (some t) =
    append_assoc ((n ∷ stream_title) ++ a) (codes " - ") t
    ∙ append_assoc (n ∷ stream_title) a (codes " - " ++ t)
    ∙ ap (λ l. (n ∷ stream_title) ++ l) (sym (append_assoc a (codes " - ") t))
title_line-text n none (some t) = refl
title_line-text n (some a) none = sym (append-nil (n ∷ stream_title))
title_line-text n none none = sym (append-nil (n ∷ stream_title))

pub title_text-IsText :
    (a t : Option Bytes) → IsText (text_of a) → IsText (text_of t) → IsText (title_text a t)
title_text-IsText (some a) (some t) p q =
    All-append (λ c. 0 < c) (a ++ codes " - ") t
      (All-append (λ c. 0 < c) a (codes " - ") p (omega arith, (omega arith, (omega arith, tt)))) q
title_text-IsText none (some t) p q = q
title_text-IsText (some a) none p q = tt
title_text-IsText none none p q = tt

length-title_text :
    (a t : Option Bytes) → length (title_text a t) ≤ size_of a + size_of t + dash_len a t
length-title_text (some a) (some t) =
    omega (arith, length-append (a ++ codes " - ") t, length-append a (codes " - "))
length-title_text none (some t) = omega arith
length-title_text (some a) none = omega arith
length-title_text none none = omega arith

pub length-url_line : (u : Bytes) → length (url_line u) ≡ length u + 13
length-url_line u = omega (
  arith,
  length-append (codes "StreamUrl='" ++ u) (codes "';"),
  length-append (codes "StreamUrl='") u,
)

pub length-url_text : (u v : Option Bytes) → length (url_text (first_url u v)) ≡ url_len u v
length-url_text none none = refl
length-url_text none (some v) = omega (arith, length-url_line v)
length-url_text (some u) v = omega (arith, length-url_line u)

pub length-text_of : (x : Option Bytes) → length (text_of x) ≡ size_of x
length-text_of none = refl
length-text_of (some x) = refl

-- The lengths that the code adds up leave room for all that is written.
pub parts_le :
    (t : Tags)
    → 16
        + length (title_text t.url_artist t.url_title)
        + length (url_text (first_url t.inline_url t.url))
        + length (text_of t.extra)
      ≤ message_len t
unfolding message_len
parts_le t = omega (
  arith,
  length-title_text t.url_artist t.url_title,
  length-url_text t.inline_url t.url,
  length-text_of t.extra,
)

-- Where the strings of the line end.
pub end_of_title :
    (n k : ℕ) (s : Bytes)
    → IsText s
    → strlen (drop 14 (((n ∷ stream_title) ++ s) ++ replicate (suc k) 0)) ≡ length s
end_of_title n k s h = strlen-zeros s k h
