-- ===== src/Mpeg/Header/Length.antt =====
-- The lengths that `get_mpeg_frame_length` can give.
use mcaster1dnas.Mpeg.Sync.{Sync}
use mcaster1dnas.Base.{
  ℕ, Bool, all_below, all_below_sound, leb, none, refl, some, true, ◌&&◌, ◌<◌, ◌==◌, ◌||◌, ◌≡◌, ◌≤◌,
  ◌⊎◌, arith, false, if◌then◌else◌, inl, inr, ◌%◌, ◌/◌, Option, ap,
}
use mcaster1dnas.Mpeg.Header.{
  length_at, bitrate_at, mpeg_frame_length, samplerate_at, samples_per_frame, frame_layer,
  frame_samplerate, frame_version,
}

passes : ℕ → ℕ → Bool
passes rate n = (rate == 0) || (n == 0) || (leb 24 n && leb n 2881)

passes→bounds :
    (rate n : ℕ) → passes rate n ≡ true → (rate == 0) ≡ false → (n ≡ 0) ⊎ ((24 ≤ n) × (n ≤ 2881))
unfolding passes
passes→bounds rate n h k = ground arith

at_padding : ℕ → ℕ → ℕ → ℕ → ℕ → Bool
at_padding version layer code index padding = passes (samplerate_at index version) (
    length_at layer (bitrate_at version layer code) (samples_per_frame version layer)
      (samplerate_at index version) padding)

at_index : ℕ → ℕ → ℕ → ℕ → Bool
unfolding at_padding
at_index version layer code index = all_below 2 (at_padding version layer code index)

at_code : ℕ → ℕ → ℕ → Bool
unfolding at_index
at_code version layer code = all_below 4 (at_index version layer code)

at_layer : ℕ → ℕ → Bool
unfolding at_code
at_layer version layer = all_below 16 (at_code version layer)

at_version : ℕ → Bool
unfolding at_layer
at_version version = all_below 4 (at_layer version)

all_headers : all_below 4 at_version ≡ true
unfolding at_version at_layer at_code at_index at_padding passes bitrate_at samples_per_frame
    length_at
all_headers = refl

header_checked :
    (v l c i p : ℕ) → v < 4 → l < 4 → c < 16 → i < 4 → p < 2 → at_padding v l c i p ≡ true
unfolding at_version at_layer at_code at_index
header_checked v l c i p hv hl hc hi hp =
    let s0 = all_below_sound 4 at_version v all_headers hv in
    let s1 = all_below_sound 4 (at_layer v) l s0 hl in
    let s2 = all_below_sound 16 (at_code v l) c s1 hc in
    let s3 = all_below_sound 4 (at_index v l c) i s2 hi in
    all_below_sound 2 (at_padding v l c i) p s3 hp

or-false : (a b : Bool) → (a || b) ≡ false → a ≡ false
or-false true b h = h
or-false false b h = refl

outcome :
    (mp mp' : Sync) (stop : Bool) (rate n : ℕ) (r : Option ℕ × Sync)
    → r ≡ (if stop then (none, mp) else (some n, mp'))
    → passes rate n ≡ true
    → (stop ≡ false → (rate == 0) ≡ false)
    → (r.0 ≡ none) ⊎ ((m : ℕ) × (r.0 ≡ some m) × ((m ≡ 0) ⊎ ((24 ≤ m) × (m ≤ 2881))))
outcome mp mp' true rate n r e h k = inl (ap (λ q. q.0) e)
outcome mp mp' false rate n r e h k = inr (n, ap (λ q. q.0) e, passes→bounds rate n h (k refl))

-- Whatever the header of a frame and the state, `get_mpeg_frame_length` gives -1, 0, or a length
-- from 24 to 2881 bytes.
pub mpeg_frame_length-bounds :
    (mp : Sync) (b1 b2 : ℕ)
    → b2 < 256
    → ((mpeg_frame_length mp b1 b2).0 ≡ none)
      ⊎ ((n : ℕ) × ((mpeg_frame_length mp b1 b2).0 ≡ some n) × ((n ≡ 0) ⊎ ((24 ≤ n) × (n ≤ 2881))))
unfolding mpeg_frame_length at_padding
mpeg_frame_length-bounds mp b1 b2 h =
    outcome mp _ _ (frame_samplerate b1 b2) _ _ refl
      (header_checked (frame_version b1) (frame_layer b1) (b2 / 16) (b2 / 4 % 4) (b2 / 2 % 2)
        (omega arith) (omega arith) (omega arith) (omega arith) (omega arith))
      (or-false _ _)
