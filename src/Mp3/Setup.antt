-- ===== src/Mp3/Setup.antt =====
-- src/format_mp3.c, lines 409 to 560: the metadata block for Shoutcast clients.
use mcaster1dnas.Refbuf.{put}
use mcaster1dnas.Source.{sub64}
use mcaster1dnas.Base.{
  ℕ, Bytes, Option, [], codes, drop, if◌then◌else◌, length, ltb, none, replicate, some, suc, take,
  ◌*◌, ◌++◌, ◌+◌, ◌-◌, ◌/◌, ◌==◌, ◌∷◌,
}

-- What `mp3_state` says of the stream: strings, without their NUL, where they are known.
pub record Tags : Type 0 where
  pub url_artist : Option Bytes
  pub url_title : Option Bytes
  pub inline_url : Option Bytes
  pub url : Option Bytes
  pub extra : Option Bytes

abbrev pub size_of : Option Bytes → ℕ
size_of none = 0
size_of (some s) = length s

-- The three bytes between an artist and a title.
abbrev pub dash_len : Option Bytes → Option Bytes → ℕ
dash_len (some a) (some t) = 3
dash_len _ _ = 0

abbrev pub url_len : Option Bytes → Option Bytes → ℕ
url_len (some u) v = length u + 11 + 2
url_len none (some v) = length v + 11 + 2
url_len none none = 0

-- The length of the message.
unfoldable pub message_len : Tags → ℕ
message_len t =
    16
    + size_of t.url_artist
    + size_of t.url_title
    + dash_len t.url_artist t.url_title
    + url_len t.inline_url t.url
    + size_of t.extra

-- `snprintf` at a place of the buffer, for the number of bytes that it may write.
abbrev pub print_at : Bytes → ℕ → ℕ → Bytes → Option Bytes
print_at m at room text = if room == 0 then some m else put m at (take (room - 1) text ++ (0 ∷ []))

-- `strlen`; the end of the buffer ends the text too.
unfoldable pub strlen : Bytes → ℕ
strlen [] = 0
strlen (c ∷ s) = let n = strlen s in if c == 0 then 0 else suc n

abbrev pub stream_title : Bytes
stream_title = codes "StreamTitle='"

-- The first line of the message, with the byte for the length.
unfoldable pub title_line : ℕ → Option Bytes → Option Bytes → Bytes
title_line n (some a) (some t) = n ∷ stream_title ++ a ++ codes " - " ++ t
title_line n none (some t) = n ∷ stream_title ++ t
title_line n a none = n ∷ stream_title

abbrev pub url_line : Bytes → Bytes
url_line u = codes "StreamUrl='" ++ u ++ codes "';"

-- The URL to print: that of the stream if it fits, or that of the source.
abbrev pub choose_url : ℕ → ℕ → Option Bytes → Option Bytes → Option Bytes
choose_url size r none v = v
choose_url size r (some u) v = if ltb (length u + 13) (size - r) then some u else v

-- A text at the place `r`, and the place behind it; the room is a difference of unsigned numbers.
abbrev pub print_next : Bytes → ℕ → ℕ → Bytes → Option (Bytes × ℕ)
print_next m size r text = elim (print_at m r (sub64 size r) text) [
  | none ↦ none
  | some k ↦ some (k, r + length text)
]

abbrev pub print_url : Option Bytes → Bytes → ℕ → ℕ → Option (Bytes × ℕ)
print_url none m size r = some (m, r)
print_url (some u) m size r = print_next m size r (url_line u)

abbrev pub print_extra : Option Bytes → Bytes → ℕ → ℕ → Option Bytes
print_extra none m size r = some m
print_extra (some x) m size r = print_at m r (sub64 size r) x

-- A step behind a write that stayed within the buffer.
abbrev pub and_then {ℓ κ} : {A : Type ℓ} {B : Type κ} → Option A → (A → Option B) → Option B
and_then none f = none
and_then (some a) f = f a

-- The writes to the buffer of `size` zero bytes, for the first line.
abbrev pub write_line : Bytes → Tags → ℕ → Option Bytes
write_line line t size =
    let r = length line + 2 in
    and_then (print_at (replicate size 0) 0 size line) (λ m.
      and_then (put m (14 + strlen (drop 14 m)) (codes "';" ++ (0 ∷ []))) (λ k.
        and_then (print_url (choose_url size r t.inline_url t.url) k size r)
          (λ (e : Bytes × ℕ). print_extra t.extra e.0 size e.1)))

unfoldable pub write_message : Tags → ℕ → ℕ → Option Bytes
unfolding title_line
write_message t len_byte size = write_line (title_line len_byte t.url_artist t.url_title) t size

-- What `metadata_setup` makes of the tags: nothing where the message is too long, or the result of
-- the writes.
pub data Setup : Type 0 where
  too_long : Setup
  made : Option Bytes → Setup

unfoldable pub metadata_setup : Tags → Setup
unfolding message_len write_message
metadata_setup t =
    let len = message_len t in
    let len_byte = (len - 1) / 16 + 1 in
    if ltb (255 * 16) len then too_long else made (write_message t len_byte (len_byte * 16 + 1))
