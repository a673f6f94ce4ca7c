-- ===== src/Refbuf/Release.antt =====
-- src/refbuf.c, lines 121 to 149: the release of a buffer and of its associated ones.
use mcaster1dnas.Refbuf.Chain.{
  mem, Chain, Chain-set, released, fewer, drop_one, release_associated-none, release-sole,
  release-unlinked, load-set_self, load-lt, load-set_ne, release-shared, set-set,
}
use mcaster1dnas.Base.{
  ℕ, Bool-cases, List, Option, [], ap, arith, false, if◌then◌else◌, inl, inr, length, none, refl,
  set, some, subst, suc, sym, zero, ◌==◌, ◌||◌, ◌∙◌, ◌∷◌, ◌≡◌, ◌≤◌, ◌%◌, ◌+◌, ◌-◌, ◌<◌,
}
use mcaster1dnas.Refbuf.{
  Refbuf, Heap, less, load, refbuf_release, release_associated, save, unlink, refbuf_addref,
}

release_associated-step :
    (fuel a : ℕ) (h g : Heap) (b : Refbuf)
    → load h a ≡ some b
    → refbuf_release fuel (save h a (unlink b)) (some a) ≡ some g
    → release_associated (suc fuel) h (some a) ≡ release_associated fuel g b.next
unfolding release_associated
release_associated-step fuel a h g b e r = rw (e, r, release_associated) refl

release_associated-released :
    (l : List ℕ) (fuel : ℕ) (h : Heap) (p : Option ℕ)
    → length l ≤ fuel
    → Chain h p l
    → release_associated (suc (suc (suc fuel))) h p ≡ some (released h l)
release_associated-released [] fuel h p n c = release_associated-none (suc (suc fuel)) h p c
release_associated-released (a ∷ l) zero h p n c = absurd (omega arith)
release_associated-released (a ∷ l) (suc fuel) h p n (e, m, (b, g, pos, lt, as', c)) =
    ap (release_associated (suc (suc (suc (suc fuel)))) h) e
    ∙ release_associated-step (suc (suc (suc fuel))) a h (drop_one h a) b g
        (release-unlinked (suc fuel) a h b g pos lt as')
    ∙ release_associated-released l fuel (drop_one h a) b.next (omega arith)
        (Chain-set h a (fewer (load h a)) l b.next m c)

-- What stands at an address after the release of a list of buffers.
load-released :
    (l : List ℕ) (h : Heap) (p : Option ℕ) (y : ℕ)
    → Chain h p l
    → load (released h l) y ≡ (if mem y l then fewer (load h y) else load h y)
load-released [] h p y c = refl
load-released (a ∷ l) h p y (e, m, (b, g, pos, lt, as', c)) =
    let r =
      load-released l (drop_one h a) b.next y (Chain-set h a (fewer (load h a)) l b.next m c) in
    elim (Bool-cases (a == y)) [
      | inl t ↦
          let q : a ≡ y = ground arith in
          let self : load (drop_one h a) y ≡ fewer (load h y) =
            subst (λ z. load (drop_one h a) z ≡ fewer (load h z)) q
              (load-set_self h a (fewer (load h a)) (load-lt h a b g)) in
          let out : mem y l ≡ false = subst (λ z. mem z l ≡ false) q m in
          r
          ∙ ap (λ s. if s then fewer (load (drop_one h a) y) else load (drop_one h a) y) out
          ∙ self
          ∙ ap (λ s. if s || mem y l then fewer (load h y) else load h y) (sym t)
      | inr t ↦
          let other : load (drop_one h a) y ≡ load h y =
            load-set_ne h a y (fewer (load h a)) (λ q. absurd (ground arith)) in
          r
          ∙ ap (λ o. if mem y l then fewer o else o) other
          ∙ ap (λ s. if s || mem y l then fewer (load h y) else load h y) (sym t)
    ]

load-set-none : (h : Heap) (a : ℕ) → load (set h a none) a ≡ none
load-set-none [] a = refl
load-set-none (x ∷ h) zero = refl
load-set-none (x ∷ h) (suc a) = load-set-none h a

-- What stands at an address after the last release of the buffer `a` with its list.
abbrev pub after_release : ℕ → List ℕ → Heap → ℕ → Option Refbuf
after_release a l h y = if a == y then none else if mem y l then fewer (load h y) else load h y

-- When the last reference to a buffer goes, the buffer is freed, and of each associated one a
-- reference goes, so that it is freed too if it was the last. All other buffers stay as they are.
-- The associated buffers are a list of different ones, which have none themselves.
pub refbuf_release-last :
    (fuel a : ℕ) (h : Heap) (b : Refbuf) (l : List ℕ)
    → load h a ≡ some b
    → b.count ≡ 1
    → mem a l ≡ false
    → Chain h b.associated l
    → length l ≤ fuel
    → (g : Heap) × (refbuf_release (suc (suc (suc (suc fuel)))) h (some a) ≡ some g)
      × ((y : ℕ) → load g y ≡ after_release a l h y)
refbuf_release-last fuel a h b l e one m c n =
    let h' : Heap = save h a (less b) in
    let c' : Chain h' b.associated l = Chain-set h a (some (less b)) l b.associated m c in
    (
      set (released h' l) a none,
      release-sole (suc (suc (suc fuel))) a h (released h' l) b e one
          (release_associated-released l fuel h' b.associated n c'),
      λ y. elim (Bool-cases (a == y)) [
        | inl t ↦
            let q : a ≡ y = ground arith in
            subst (λ z. load (set (released h' l) a none) z ≡ none) q
              (load-set-none (released h' l) a)
            ∙ ap (λ s. if s then none else if mem y l then fewer (load h y) else load h y) (sym t)
        | inr t ↦
            load-set_ne (released h' l) a y none (λ q. absurd (ground arith))
            ∙ load-released l h' b.associated y c'
            ∙ ap (λ o. if mem y l then fewer o else o)
                (load-set_ne h a y (some (less b)) (λ q. absurd (ground arith)))
            ∙ ap (λ s. if s then none else if mem y l then fewer (load h y) else load h y) (sym t)
      ],
    )

-- A reference that is taken and given back leaves the heap as it was.
pub refbuf_release-refbuf_addref :
    (fuel a : ℕ) (h : Heap) (b : Refbuf)
    → load h a ≡ some b
    → 0 < b.count
    → b.count + 1 < 4294967296
    → (g : Heap) × (refbuf_addref h (some a) ≡ some g)
      × (refbuf_release (suc fuel) g (some a) ≡ some h)
unfolding refbuf_addref
refbuf_release-refbuf_addref fuel a h b e pos fits =
    let more : Refbuf = record b { count = (b.count + 1) % 4294967296 } in
    let g : Heap = save h a more in
    let n : (b.count + 1) % 4294967296 - 1 ≡ b.count = omega arith in
    (
      g,
      rw (e, refbuf_addref) refl,
      release-shared fuel a g more (load-set_self h a (some more) (load-lt h a b e)) (omega arith)
            (omega arith)
          ∙ ap some (set-set h a (some more) _)
          ∙ ap (λ k. some (save h a (record b { count = k }))) n
          ∙ ap some (save-load h a b e),
    )
  where
    save-load : (h : Heap) (a : ℕ) (b : Refbuf) → load h a ≡ some b → save h a b ≡ h
    save-load [] a b e = refl
    save-load (none ∷ h) zero b e = absurd (ground arith)
    save-load (some x ∷ h) zero b e = ap (λ o. o ∷ h) (sym e)
    save-load (x ∷ h) (suc a) b e = ap (λ l. x ∷ l) (save-load h a b e)

-- `n` releases in turn.
unfoldable pub release_times : ℕ → ℕ → Heap → ℕ → Option Heap
unfolding refbuf_release
release_times zero fuel h a = some h
release_times (suc n) fuel h a = elim (refbuf_release fuel h (some a)) [
  | none ↦ none
  | some g ↦ release_times n fuel g a
]

release_times-step :
    (n fuel a : ℕ) (h g : Heap)
    → refbuf_release fuel h (some a) ≡ some g
    → release_times (suc n) fuel h a ≡ release_times n fuel g a
unfolding release_times
release_times-step n fuel a h g e = rw (e, release_times) refl

release_times-zero : (fuel : ℕ) (h : Heap) (a : ℕ) → release_times 0 fuel h a ≡ some h
unfolding release_times
release_times-zero fuel h a = refl

release_gone : (fuel a : ℕ) (h : Heap) → load h a ≡ none → release_times 1 (suc fuel) h a ≡ none
unfolding release_times refbuf_release
release_gone fuel a h e = rw (e, refbuf_release, release_times) refl

-- A buffer without associated ones is there until all its references are given back, and is freed
-- with the last of them: `n + 1` references allow `n + 1` releases and no more.
pub release_times-frees :
    (n fuel a : ℕ) (h : Heap) (b : Refbuf)
    → load h a ≡ some b
    → b.count ≡ suc n
    → suc n < 4294967296
    → b.associated ≡ none
    → (release_times (suc n) (suc (suc fuel)) h a ≡ some (set h a none))
      × (release_times (suc (suc n)) (suc (suc fuel)) h a ≡ none)
release_times-frees zero fuel a h b e c lt as' =
    let r : refbuf_release (suc (suc fuel)) h (some a) ≡ some (set h a none) =
      release-sole (suc fuel) a h (save h a (less b)) b e c
        (release_associated-none fuel (save h a (less b)) b.associated as')
      ∙ ap some (set-set h a (some (less b)) none) in
    (
      release_times-step 0 (suc (suc fuel)) a h (set h a none) r ∙ release_times-zero _ _ _,
      release_times-step 1 (suc (suc fuel)) a h (set h a none) r
          ∙ release_gone (suc fuel) a (set h a none) (load-set-none h a),
    )
release_times-frees (suc n) fuel a h b e c lt as' =
    let fewer_b : Refbuf = record b { count = b.count - 1 } in
    let g : Heap = save h a fewer_b in
    let r : refbuf_release (suc (suc fuel)) h (some a) ≡ some g =
      release-shared (suc fuel) a h b e (omega arith) (omega arith) in
    let (once, twice) =
      release_times-frees n fuel a g fewer_b (load-set_self h a (some fewer_b) (load-lt h a b e))
        (omega arith) (omega arith) as' in
    (
      release_times-step (suc n) (suc (suc fuel)) a h g r
          ∙ once
          ∙ ap some (set-set h a (some fewer_b) none),
      release_times-step (suc (suc n)) (suc (suc fuel)) a h g r ∙ twice,
    )
