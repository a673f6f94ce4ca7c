-- ===== src/Mpeg/Run.antt =====
-- src/mpeg.c, lines 851 to 1022: the steps that `mpeg_complete_frames_cb` takes from one frame to
-- the next, for any data in the block. `find_align_sync` is the step that gives up the bits to match.
use mcaster1dnas.Base.{ℕ, ◌<◌, Bytes, inl, inr, refl, some, ◌≡◌, ◌≢◌, Bool}
use mcaster1dnas.Mpeg.Sync.{
  Flags, set_flags, Sync, setup, IsReady, check_numframes, has_changed, unset,
  check_numframes-IsReady, Format, set_framecheck,
}
use mcaster1dnas.Mpeg.Handle.{process_frame, Callback, Verdict, handle_id3_frame}
use mcaster1dnas.Mpeg.Handle.Ready.{process_frame-IsReady, handle_id3_frame-IsReady}
use mcaster1dnas.Mpeg.Handle.Bounds.{process_frame-IsWithin, IsWithin}
use mcaster1dnas.Mpeg.Initial.{get_initial_frame, match_syncbits}
use mcaster1dnas.Mpeg.Initial.Ready.{get_initial_frame-IsReady, match_syncbits-IsReady}

module _ (estimate : ℕ → ℕ → ℕ → ℕ → ℕ) where
  -- The states of a parser between two calls within the loop: what the public functions, the checks
  -- and the handlers leave, and what the loop itself sets.
  pub data Reached : Sync → Type 0 where
    begun : Reached setup
    counted : {mp : Sync} (count : ℕ) → Reached mp → Reached (check_numframes mp count)
    set : {mp : Sync} (f : Flags) → Reached mp → Reached (set_flags mp f)
    looked : {mp : Sync} → Reached mp → Reached (has_changed mp).1
    initial : {mp : Sync} (p : Bytes) → Reached mp → Reached (get_initial_frame estimate mp p).1
    matched :
        {mp : Sync} (p : Bytes) (remaining : ℕ)
        → Reached mp
        → Reached (match_syncbits mp p remaining).1
    handled :
        {mp : Sync} (cb : Callback) (p : Bytes) (r : Verdict × Sync)
        → Reached mp
        → process_frame cb mp p ≡ some r
        → Reached r.1
    tagged :
        {mp : Sync} (p : Bytes)
        → Reached mp
        → mp.sample_count < 2147483648
        → Reached (handle_id3_frame mp p).1
    framed : {mp : Sync} (v : ℕ) → Reached mp → Reached (set_framecheck mp v)
    sampled : {mp : Sync} (n : ℕ) → Reached mp → Reached (record mp { sample_count = n })
    flagged :
        {mp : Sync} (skip size tag : Bool) (skipped : ℕ) (f : Format)
        → Reached mp
        → Reached (record mp {
          skip_sync = skip;
          resize = size;
          chk_tag = tag;
          resync_count = skipped;
          format = f;
        })
    lost : {mp : Sync} → Reached mp → Reached (record mp { mask = 0 })

  Reached-IsReady : {mp : Sync} → Reached mp → IsReady mp
  unfolding has_changed setup set_framecheck set_flags
  Reached-IsReady begun = record { handler = inl refl }
  Reached-IsReady (counted count r) = check_numframes-IsReady _ count (Reached-IsReady r)
  Reached-IsReady (set f r) = let k = Reached-IsReady r in record { handler = k.handler }
  Reached-IsReady (looked r) = let k = Reached-IsReady r in record { handler = k.handler }
  Reached-IsReady (initial p r) = get_initial_frame-IsReady estimate _ p (Reached-IsReady r)
  Reached-IsReady (matched p n r) = match_syncbits-IsReady _ p n (Reached-IsReady r)
  Reached-IsReady (handled cb p v r e) = process_frame-IsReady cb _ p v (Reached-IsReady r) e
  Reached-IsReady (tagged p r n) = handle_id3_frame-IsReady _ p (Reached-IsReady r)
  Reached-IsReady (framed v r) = let k = Reached-IsReady r in record { handler = k.handler }
  Reached-IsReady (sampled n r) = let k = Reached-IsReady r in record { handler = k.handler }
  Reached-IsReady (flagged a b c n f r) =
      let k = Reached-IsReady r in record { handler = k.handler }
  Reached-IsReady (lost r) = record { handler = inl refl }

  -- However a parser got to its state, whatever flags were set: where it has bits to match it has
  -- a handler as well, whose call gives a result: -1, 0, or the length of a frame that ends within
  -- the block. The count of samples, which two handlers take for a length, fits an int.
  pub Reached-process_frame :
      (mp : Sync) (cb : Callback) (p : Bytes)
      → Reached mp
      → mp.mask ≢ 0
      → mp.sample_count < 2147483648
      → (r : Verdict × Sync) × (process_frame cb mp p ≡ some r) × IsWithin p r.0
  Reached-process_frame mp cb p r h n =
      process_frame-IsWithin cb mp p (ready→handler mp (Reached-IsReady r) h) n
    where
      ready→handler : (mp : Sync) → IsReady mp → mp.mask ≢ 0 → mp.process ≢ unset
      ready→handler mp k h = elim k.handler [ inl e ↦ absurd (h e) | inr e ↦ e ]
