-- ===== src/Mp3.antt =====
-- src/format_mp3.c, lines 563 to 704: a block of the queue is written to a listener, with the
-- metadata of the stream between the bytes of it.
pub mod Receiver
pub mod Sync
pub mod Audio
pub mod Inserted
pub mod Write
pub mod Delivered
mod Tests
pub mod Setup
pub mod Filled
pub mod Message
pub mod Built
use mcaster1dnas.Base.{
  ℕ, Bool, Bytes, Option, [], drop, false, if◌then◌else◌, leb, length, ltb, min, none, not, some,
  take, true, ◌%◌, ◌&&◌, ◌*◌, ◌++◌, ◌+◌, ◌-◌, ◌==◌, ◌||◌, ◌∷◌, codes,
}

-- `struct metadata_block`, known by a number that stands for its address; `icy` is its block for
-- Shoutcast clients, the byte for the length and the text.
pub record Meta : Type 0 where
  pub number : ℕ
  pub icy : Option Bytes

-- A block of the queue with what is attached to it.
pub record Block : Type 0 where
  pub bytes : Bytes
  pub attached : Option Meta

-- The fields of `client_t` and of `mp3_client_data`. `associated` is the number of the metadata
-- block that was sent last, `in_metadata` and `chunked` are flags.
pub record Client : Type 0 where
  pub interval : ℕ
  pub since_meta_block : ℕ
  pub metadata_offset : ℕ
  pub associated : Option ℕ
  pub in_metadata : Bool
  pub chunked : Bool
  pub chunk_pos : ℕ
  pub pos : ℕ
  pub queue_pos : ℕ
  pub counter : ℕ
  pub schedule_ms : ℕ
  pub throttle : ℕ
  pub error : Bool

-- `blank_meta`, which has the number 0, and its block.
abbrev pub blank : ℕ × Bytes
blank = (0, 1 ∷ codes "StreamTitle='';" ++ (0 ∷ []))

-- The metadata block to use, and its bytes.
abbrev pub meta_of : Option Meta → ℕ × Bytes
meta_of none = blank
meta_of (some m) = elim m.icy [ none ↦ blank | some icy ↦ (m.number, icy) ]

abbrev pub is_number : Option ℕ → ℕ → Bool
is_number none n = false
is_number (some m) n = m == n

-- The metadata bytes to send: a NUL for a block that was sent before, or what is left of the block.
-- `none` where nothing can be left.
abbrev pub meta_bytes : Client → ℕ × Bytes → Option Bytes
meta_bytes c m =
    if is_number c.associated m.0 && not c.in_metadata
    then some (0 ∷ [])
    else if c.in_metadata && leb (length m.1) c.metadata_offset
    then none
    else some (drop c.metadata_offset m.1)

-- How a write ends: the client, the result, where `none` is -1, and the bytes that were sent.
pub record Written : Type 0 where
  pub client : Client
  pub result : Option ℕ
  pub wire : Bytes

-- What a socket that takes `n` bytes sends; without a number it fails.
abbrev pub taken : Option ℕ → Bytes → Bytes
taken none bytes = []
taken (some n) bytes = take n bytes

abbrev pub result_of : Option ℕ → Bytes → Option ℕ
result_of none bytes = none
result_of (some n) bytes = some (min n (length bytes))

-- The delay after a short write.
abbrev pub delay : Client → Option ℕ → ℕ
delay c none = 10 + c.throttle * 10
delay c (some n) = 10 + c.throttle * 6

-- Bytes of the block went out: `n` of them.
abbrev pub advance : Client → ℕ → Client
advance c n = record c {
  pos = c.pos + n;
  queue_pos = (c.queue_pos + n) % 18446744073709551616;
  counter = (c.counter + n) % 18446744073709551616;
}

-- The metadata is complete, and `n` bytes of the block went out behind it.
abbrev pub finish_meta : Client → ℕ → ℕ → Client
finish_meta c number n = record (advance c n) {
  since_meta_block = n;
  in_metadata = false;
  metadata_offset = 0;
  associated = some number;
}

-- The state after `ret` of `len` bytes, of which `meta_len` are metadata.
abbrev pub after_meta : Client → ℕ → ℕ → ℕ → Option ℕ → Client
after_meta c number meta_len len none = record c { schedule_ms = c.schedule_ms + delay c none }
after_meta c number meta_len len (some ret) =
    if leb meta_len ret
    then record (finish_meta c number (ret - meta_len)) {
      schedule_ms = if ltb ret len then c.schedule_ms + delay c (some ret) else c.schedule_ms;
    }
    else record c {
      in_metadata = c.in_metadata || ltb 0 ret;
      metadata_offset = c.metadata_offset + ret;
      schedule_ms = c.schedule_ms + delay c (some ret);
    }

-- `send_icy_metadata`, for what the socket takes.
unfoldable pub send_icy_metadata : Client → Block → Option ℕ → Written
send_icy_metadata c b accept =
    let m = meta_of b.attached in
    elim (meta_bytes c m) [
      | none ↦ record { client = record c { error = true }; result = some 0; wire = [] }
      | some metadata ↦
          let bytes = metadata ++ take c.interval (drop c.pos b.bytes) in
          record {
            client = after_meta c m.0 (length metadata) (length bytes) (result_of accept bytes);
            result = result_of accept bytes;
            wire = taken accept bytes;
          }
    ]

-- The number of bytes to send before the next metadata.
abbrev pub audio_len : Client → Block → ℕ
audio_len c b =
    let left = length b.bytes - c.pos in
    let room = if ltb 0 c.interval then min left (c.interval - c.since_meta_block) else left in
    min room 100000

-- What is known after a write of `len` bytes of the block.
abbrev pub after_audio : Client → ℕ → Option ℕ → Client
after_audio c len none = record c { schedule_ms = c.schedule_ms + delay c none }
after_audio c len (some ret) = record (advance c ret) {
  since_meta_block = c.since_meta_block + ret;
  schedule_ms = if ltb ret len then c.schedule_ms + delay c (some ret) else c.schedule_ms;
}

-- A chunk is sent in pieces, with `overall` bytes around and for `bytes`, and counts when it is
-- complete.
abbrev pub send_chunk : Client → Bytes → ℕ → Option ℕ → Written
send_chunk c bytes overall accept =
    let at : ℕ = elim accept [ none ↦ c.chunk_pos | some n ↦ min (c.chunk_pos + n) overall ] in
    if at == overall
    then record {
      client = after_audio (record c { chunk_pos = 0 }) (length bytes) (some (length bytes));
      result = some (length bytes);
      wire = bytes;
    }
    else record {
      client = after_audio (record c { chunk_pos = at }) (length bytes) none;
      result = none;
      wire = [];
    }

-- `format_mp3_write_buf_to_client`; `chunk_size` gives the size of a chunk with so many bytes. The
-- bytes of a chunk count as sent when it is complete.
unfoldable pub write_buf_to_client : (ℕ → ℕ) → Client → Block → Option ℕ → Written
unfolding send_icy_metadata
write_buf_to_client chunk_size c b accept =
    let len = audio_len c b in
    let bytes = take len (drop c.pos b.bytes) in
    if ltb 0 c.interval && (c.interval == c.since_meta_block)
    then send_icy_metadata c b accept
    else if len == 0
    then record { client = c; result = none; wire = [] }
    else if c.chunked
    then send_chunk c bytes (chunk_size len) accept
    else record {
      client = after_audio c len (result_of accept bytes);
      result = result_of accept bytes;
      wire = taken accept bytes;
    }
