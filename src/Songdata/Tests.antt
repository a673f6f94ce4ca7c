-- ===== src/Songdata/Tests.antt =====
-- Runs of the song history, and instances of its theorems.
use mcaster1dnas.Songdata.Scan.{snapshot-recent}
use mcaster1dnas.Songdata.Push.{Pushed, push_refines}
use mcaster1dnas.Songdata.Spec.{spec_snapshot}
use mcaster1dnas.Songdata.Recent.{Inv, collect, recent}
use mcaster1dnas.Base.{
  ℕ, Bytes, List, Option, [], codes, map, none, refl, some, ◌+◌, ◌∷◌, ◌≡◌, arith,
}
use mcaster1dnas.Songdata.{init, Entry, History, push, snapshot, blank, new_entry}

abbrev live : Option Bytes
live = some (codes "/live")

-- Pushes in turn, at the times 10, 11 and so on.
play : History → List Bytes → ℕ → Option History
unfolding push
play h [] now = some h
play h (t ∷ ts) now = elim (push h live (some t) 5 now now) [
  | none ↦ none
  | some g ↦ play g ts (now + 1)
]

titles : Option (List Entry) → List (Option Bytes)
titles none = []
titles (some l) = map (λ (e : Entry). e.title) l

shown : Option History → List (Option Bytes)
unfolding snapshot titles
shown none = []
shown (some h) = titles (snapshot h live)

two_of_three :
    shown (play (init 2) (codes "a" ∷ codes "A - b" ∷ codes "c" ∷ []) 10)
    ≡ some (codes "c") ∷ some (codes "b") ∷ []
unfolding init play shown
two_of_three = refl

abbrev live_mount : Bytes
live_mount = codes "/live"

-- A ring of two with one song, played since 10.
abbrev one_played : History
one_played = record {
  slots = new_entry live_mount (codes "A - b") 5 10 ∷ blank ∷ [];
  len = 2;
  used = 1;
  head = 1;
  limit = 2;
}

one_played-Inv : Inv one_played
one_played-Inv = record {
  slots_len = refl;
  used_le = omega arith;
  len_pos = omega arith;
  ring_len = λ p. refl;
  head_lt = λ p. omega arith;
  filling = λ p q. refl;
}

recent-one_played : recent one_played ≡ new_entry live_mount (codes "A - b") 5 10 ∷ []
unfolding collect
recent-one_played = refl

push_refines_example :
    (g : History) × (push one_played (some live_mount) (some (codes "c")) 6 20 21 ≡ some g)
    × Pushed one_played g live_mount (codes "c") 6 20 21
push_refines_example = push_refines one_played live_mount b'c' [] 6 20 21 one_played-Inv

snapshot-recent_example :
    snapshot one_played (some live_mount)
    ≡ some (spec_snapshot (some live_mount) (recent one_played))
snapshot-recent_example = snapshot-recent one_played (some live_mount) one_played-Inv
