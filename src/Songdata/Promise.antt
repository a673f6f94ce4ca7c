-- ===== src/Songdata/Promise.antt =====
-- What a song history promises of a push, for the list of its entries, newest first. It is written
-- without the functions of the code.
use mcaster1dnas.Base.{
  ℕ, All, Bytes, List, Option, [], length, none, some, ◌++◌, ◌∷◌, ◌≡◌, ◌≢◌, ◌≤◌,
}
use mcaster1dnas.Songdata.{Entry}
use mcaster1dnas.Songdata.Spec.{bounded}

-- The text between an artist and a title.
abbrev pub separator : Bytes
separator = b' ' ∷ b'-' ∷ b' ' ∷ []

-- The artist and the title of a text: it is split at its first separator, unless that begins it.
pub data IsSong (raw : Bytes) : Option Bytes → Bytes → Type 0 where
  plain : ((x y : Bytes) → raw ≢ x ++ (separator ++ y)) → IsSong raw none raw
  leading : (y : Bytes) → raw ≡ separator ++ y → IsSong raw none raw
  split :
      (artist title : Bytes)
      → artist ≢ []
      → raw ≡ artist ++ (separator ++ title)
      → ((x y : Bytes) → raw ≡ x ++ (separator ++ y) → length artist ≤ length x)
      → IsSong raw (some artist) title

-- The entry of a text that begins to play.
pub record IsNew (e : Entry) (m raw : Bytes) (listeners now : ℕ) : Type 0 where
  pub mount : e.mount ≡ some m
  pub song : Bytes
  pub title : e.title ≡ some song
  pub is_song : IsSong raw e.artist song
  pub heard_by : e.listeners ≡ listeners
  pub begun : e.played_at ≡ now
  pub playing : e.ended_at ≡ 0
  pub no_codec : e.codec ≡ none
  pub no_samplerate : e.samplerate ≡ 0
  pub no_channels : e.channels ≡ 0
  pub no_bitrate : e.bitrate ≡ 0

-- The entry `e` after it ended at `now`, if it had not ended before.
pub record IsEnded (e : Entry) (now : ℕ) (f : Entry) : Type 0 where
  pub ends : e.ended_at ≡ 0 → f.ended_at ≡ now
  pub ended : e.ended_at ≢ 0 → f.ended_at ≡ e.ended_at
  pub same : record f { ended_at = 0 } ≡ record e { ended_at = 0 }

-- Entries of other mounts.
abbrev pub Others : Bytes → List Entry → Type 0
Others m l = All (λ e. e.mount ≢ some m) l

-- The newest entry of a mount.
pub record IsLatest (m : Bytes) (l before : List Entry) (e : Entry) (after : List Entry)
    : Type 0 where
  pub parts : l ≡ before ++ (e ∷ after)
  pub others : Others m before
  pub mount : e.mount ≡ some m

-- A push of a text for a mount: nothing where the text is the stored title of the newest entry of
-- the mount, and otherwise that entry ends, if there is one, and a new one begins. Where there is
-- a limit, the oldest entries beyond it go.
pub data IsPush (limit : ℕ) (l : List Entry) (m raw : Bytes) (listeners marked now : ℕ)
    : List Entry → Type 0 where
  already_there :
      (before : List Entry) (e : Entry) (after : List Entry)
      → IsLatest m l before e after
      → e.title ≡ some raw
      → IsPush limit l m raw listeners marked now l
  first :
      (n : Entry)
      → Others m l
      → IsNew n m raw listeners now
      → IsPush limit l m raw listeners marked now (bounded limit (n ∷ l))
  follows :
      (n : Entry) (before : List Entry) (e f : Entry) (after : List Entry)
      → IsLatest m l before e after
      → e.title ≢ some raw
      → IsEnded e marked f
      → IsNew n m raw listeners now
      → IsPush limit l m raw listeners marked now (bounded limit (n ∷ before ++ (f ∷ after)))
