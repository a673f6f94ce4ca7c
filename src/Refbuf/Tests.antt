-- ===== src/Refbuf/Tests.antt =====
-- Buffers at concrete heaps.
use mcaster1dnas.Refbuf.Chain.{Chain}
use mcaster1dnas.Refbuf.Release.{
  release_times, after_release, refbuf_release-last, release_times-frees,
}
use mcaster1dnas.Refbuf.Copies.{Appended, refbuf_appendv-Appended}
use mcaster1dnas.Base.{ℕ, Option, [], arith, codes, none, refl, set, some, ◌∷◌, ◌≡◌}
use mcaster1dnas.Refbuf.{Refbuf, Heap, load, refbuf_appendv, refbuf_release}

abbrev buffer : ℕ → Option ℕ → Option ℕ → Refbuf
buffer count next associated = record {
  flags = 0;
  count = count;
  next = next;
  associated = associated;
  memory = codes "title";
  len = 3;
}

-- A block with two associated ones, of which the second is shared, and one apart.
abbrev small_heap : Heap
small_heap =
    some (buffer 1 none (some 1))
    ∷ some (buffer 1 (some 2) none)
    ∷ some (buffer 2 none none)
    ∷ some (buffer 3 none none)
    ∷ []

small_heap-Chain : Chain small_heap (some 1) (1 ∷ 2 ∷ [])
small_heap-Chain = (
  refl,
  refl,
  (
    buffer 1 (some 2) none,
    refl,
    omega arith,
    omega arith,
    refl,
    (refl, refl, (buffer 2 none none, refl, omega arith, omega arith, refl, refl)),
  ),
)

refbuf_release-last_example :
    (g : Heap) × (refbuf_release 6 small_heap (some 0) ≡ some g)
    × ((y : ℕ) → load g y ≡ after_release 0 (1 ∷ 2 ∷ []) small_heap y)
refbuf_release-last_example =
    refbuf_release-last 2 0 small_heap (buffer 1 none (some 1)) (1 ∷ 2 ∷ []) refl refl refl
      small_heap-Chain (omega arith)

release_times-frees_example :
    (release_times 3 2 small_heap 3 ≡ some (set small_heap 3 none))
    × (release_times 4 2 small_heap 3 ≡ none)
release_times-frees_example =
    release_times-frees 2 0 3 small_heap (buffer 3 none none) refl refl (omega arith) refl

refbuf_appendv-Appended_example :
    (c : Refbuf) × (r : Option ℕ) × (refbuf_appendv (buffer 1 none none) 5 (codes "x")
      ≡ some (c, r))
    × Appended (buffer 1 none none) 5 (codes "x") c
refbuf_appendv-Appended_example =
    refbuf_appendv-Appended (buffer 1 none none) 5 (codes "x") (omega arith) (omega arith)
