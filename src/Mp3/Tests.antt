-- ===== src/Mp3/Tests.antt =====
-- A listener with metadata at concrete blocks.
use mcaster1dnas.Mp3.Built.{units, metadata_setup-message}
use mcaster1dnas.Mp3.Message.{message}
use mcaster1dnas.Mp3.Filled.{filled}
use mcaster1dnas.Mp3.Setup.{
  Tags, message_len, metadata_setup, too_long, write_message, made, strlen, title_line,
}
use mcaster1dnas.Mp3.Receiver.{feed}
use mcaster1dnas.Mp3.Sync.{at_audio, IsFramed}
use mcaster1dnas.Base.{
  [], arith, codes, false, none, refl, some, take, ◌∷◌, ◌≡◌, replicate, ◌*◌, ◌++◌, ◌+◌, ◌<◌, ◌≤◌,
  ◌⊎◌,
}
use mcaster1dnas.Mp3.{Client, Block, Written, send_icy_metadata, write_buf_to_client}
use mcaster1dnas.Mp3.Delivered.{started, wrote, Delivering-audio}

abbrev one_block : Block
one_block = record {
  bytes = codes "abcdef";
  attached = some (record { number = 7; icy = some (1 ∷ codes "StreamTitle='x';") });
}

abbrev listener : Client
listener = record {
  interval = 4;
  since_meta_block = 0;
  metadata_offset = 0;
  associated = none;
  in_metadata = false;
  chunked = false;
  chunk_pos = 0;
  pos = 0;
  queue_pos = 0;
  counter = 0;
  schedule_ms = 0;
  throttle = 1;
  error = false;
}

abbrev written_once : Written
written_once = record {
  client = record listener { since_meta_block = 4; pos = 4; queue_pos = 4; counter = 4 };
  result = some 4;
  wire = codes "abcd";
}

once : write_buf_to_client (λ n. n) listener one_block (some 9) ≡ written_once
unfolding write_buf_to_client send_icy_metadata
once = refl

-- Behind four bytes come the metadata and the rest of the block.
twice :
    (write_buf_to_client (λ n. n) written_once.client one_block (some 99)).wire
    ≡ 1 ∷ codes "StreamTitle='x';ef"
unfolding write_buf_to_client send_icy_metadata
twice = refl

Delivering-audio_example :
    (feed 4 (at_audio 4 []) (write_buf_to_client (λ n. n) listener one_block (some 3)).wire).audio
    ≡ take (write_buf_to_client (λ n. n) listener one_block (some 3)).client.pos one_block.bytes
Delivering-audio_example =
    Delivering-audio (λ n. n) [] one_block
      (write_buf_to_client (λ n. n) listener one_block (some 3)).client
      (feed 4 (at_audio 4 []) (write_buf_to_client (λ n. n) listener one_block (some 3)).wire)
      (wrote (some 3) (started one_block listener (omega arith) refl refl refl refl refl) refl
        (omega arith))

abbrev song : Tags
song = record {
  url_artist = some (codes "a");
  url_title = some (codes "b");
  inline_url = none;
  url = some (codes "u");
  extra = none;
}

metadata_setup-message_example :
    ((4080 < message_len song) × (metadata_setup song ≡ too_long))
    ⊎ ((message_len song ≤ 4080)
        × (metadata_setup song
            ≡ made (some (filled (message (units song) song) (units song * 16 + 1))))
        × IsFramed (filled (message (units song) song) (units song * 16 + 1)))
metadata_setup-message_example =
    metadata_setup-message song (record { artist = (omega arith, tt); title = (omega arith, tt) })

song_block :
    metadata_setup song
    ≡ made (some (3 ∷ codes "StreamTitle='a - b';StreamUrl='u';" ++ replicate 14 0))
unfolding metadata_setup write_message message_len strlen title_line
song_block = refl
