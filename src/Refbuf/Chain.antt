-- ===== src/Refbuf/Chain.antt =====
-- src/refbuf.c, lines 121 to 149: what a release does to the buffers that it reaches.
use mcaster1dnas.Base.{
  ℕ, Bool, Bool-cases, List, Option, [], ap, arith, false, get_elem?-set_ne, get_elem?-set_self,
  if◌then◌else◌, inl, inr, length, none, refl, set, some, suc, sym, zero, ◌-◌, ◌<◌, ◌==◌, ◌||◌, ◌∙◌,
  ◌∷◌, ◌≡◌, ◌≢◌, true, ◌%◌, ◌+◌,
}
use mcaster1dnas.Refbuf.{
  Refbuf, Heap, flat, load, refbuf_release, release_associated, save, unlink, freed, less,
}

abbrev pub mem : ℕ → List ℕ → Bool
mem a [] = false
mem a (x ∷ l) = (x == a) || mem a l

-- A list of buffers linked by `next`, all different and without associated ones.
abbrev pub Chain : Heap → Option ℕ → List ℕ → Type 0
Chain h p [] = p ≡ none
Chain h p (a ∷ l) =
    (p ≡ some a)
    × (mem a l ≡ false)
    × ((b : Refbuf) × (load h a ≡ some b)
        × (0 < b.count)
        × (b.count < 4294967296)
        × (b.associated ≡ none)
        × Chain h b.next l)

-- What is left of a buffer with one reference less.
abbrev pub fewer : Option Refbuf → Option Refbuf
fewer none = none
fewer (some b) = if b.count == 1 then none else some (record b { count = b.count - 1 })

abbrev pub drop_one : Heap → ℕ → Heap
drop_one h a = set h a (fewer (load h a))

abbrev pub released : Heap → List ℕ → Heap
released h [] = h
released h (a ∷ l) = released (drop_one h a) l

pub set-set : (h : Heap) (a : ℕ) (u v : Option Refbuf) → set (set h a u) a v ≡ set h a v
set-set [] a u v = refl
set-set (x ∷ h) zero u v = refl
set-set (x ∷ h) (suc a) u v = ap (λ l. x ∷ l) (set-set h a u v)

pub load-lt : (h : Heap) (a : ℕ) (b : Refbuf) → load h a ≡ some b → a < length h
load-lt [] a b e = absurd (ground arith)
load-lt (x ∷ h) zero b e = omega arith
load-lt (x ∷ h) (suc a) b e = omega (arith, load-lt h a b e)

pub load-set_self : (h : Heap) (a : ℕ) (v : Option Refbuf) → a < length h → load (set h a v) a ≡ v
load-set_self h a v lt = ap flat (get_elem?-set_self h a v lt) ∙ flat_some v
  where
    flat_some : (v : Option Refbuf) → flat (some v) ≡ v
    flat_some v = refl

pub load-set_ne : (h : Heap) (a y : ℕ) (v : Option Refbuf) → a ≢ y → load (set h a v) y ≡ load h y
load-set_ne h a y v n = ap flat (get_elem?-set_ne h a y v n)

pub mem-false : (a x : ℕ) (l : List ℕ) → mem a (x ∷ l) ≡ false → (x ≢ a) × (mem a l ≡ false)
mem-false a x l h = elim (Bool-cases (x == a)) [
  | inl e ↦ absurd (ground arith)
  | inr e ↦ ((λ q. absurd (ground arith)), ground arith)
]

-- A write elsewhere leaves a list of buffers as it is.
pub Chain-set :
    (h : Heap) (a : ℕ) (v : Option Refbuf) (l : List ℕ) (p : Option ℕ)
    → mem a l ≡ false
    → Chain h p l
    → Chain (set h a v) p l
Chain-set h a v [] p m c = c
Chain-set h a v (x ∷ l) p m (e, n, (b, g, pos, lt, as', c)) =
    let (ne, m') = mem-false a x l m in
    (
      e,
      n,
      (b, load-set_ne h a x v (λ q. ne (sym q)) ∙ g, pos, lt, as', Chain-set h a v l b.next m' c),
    )

pub refbuf_release-step :
    (fuel a : ℕ) (h : Heap) (b : Refbuf)
    → load h a ≡ some b
    → refbuf_release (suc fuel) h (some a) ≡ (
        if (less b).count == 0
        then freed a (release_associated fuel (save h a (less b)) b.associated)
        else some (save h a (less b)))
unfolding refbuf_release
refbuf_release-step fuel a h b e = rw (e, refbuf_release) refl

pub release_associated-none :
    (fuel : ℕ) (h : Heap) (p : Option ℕ) → p ≡ none → release_associated (suc fuel) h p ≡ some h
unfolding refbuf_release
release_associated-none fuel h p e = rw e refl

-- The last of the references to a buffer.
pub release-sole :
    (fuel a : ℕ) (h g : Heap) (b : Refbuf)
    → load h a ≡ some b
    → b.count ≡ 1
    → release_associated fuel (save h a (less b)) b.associated ≡ some g
    → refbuf_release (suc fuel) h (some a) ≡ some (set g a none)
release-sole fuel a h g b e one r =
    let z : ((less b).count == 0) ≡ true = ground arith in
    refbuf_release-step fuel a h b e
    ∙ ap
        (λ t.
          if t
          then freed a (release_associated fuel (save h a (less b)) b.associated)
          else some (save h a (less b)))
        z
    ∙ ap (freed a) r

-- One of several.
pub release-shared :
    (fuel a : ℕ) (h : Heap) (b : Refbuf)
    → load h a ≡ some b
    → 1 < b.count
    → b.count < 4294967296
    → refbuf_release (suc fuel) h (some a) ≡ some (save h a (record b { count = b.count - 1 }))
release-shared fuel a h b e two lt =
    let z : ((less b).count == 0) ≡ false = ground arith in
    let n : (b.count + 4294967295) % 4294967296 ≡ b.count - 1 = omega arith in
    refbuf_release-step fuel a h b e
    ∙ ap
        (λ t.
          if t
          then freed a (release_associated fuel (save h a (less b)) b.associated)
          else some (save h a (less b)))
        z
    ∙ ap (λ k. some (save h a (record b { count = k }))) n

-- The release of one buffer of a list.
pub release-unlinked :
    (fuel a : ℕ) (h : Heap) (b : Refbuf)
    → load h a ≡ some b
    → 0 < b.count
    → b.count < 4294967296
    → b.associated ≡ none
    → refbuf_release (suc (suc fuel)) (save h a (unlink b)) (some a) ≡ some (drop_one h a)
release-unlinked fuel a h b e pos lt as' =
    let at : a < length h = load-lt h a b e in
    elim (Bool-cases (b.count == 1)) [
      | inl t ↦
          let u : unlink b ≡ record b { next = none } =
            ap (λ s. if s then record b { next = none } else b) t in
          let g : Heap = save h a (record b { next = none }) in
          let d : drop_one h a ≡ set h a none = ap (set h a) (
            ap fewer e ∙ ap (λ s. if s then none else some (record b { count = b.count - 1 })) t) in
          ap (λ c. refbuf_release (suc (suc fuel)) (save h a c) (some a)) u
          ∙ release-sole (suc fuel) a g _ (record b { next = none })
              (load-set_self h a (some (record b { next = none })) at) (ground arith)
              (release_associated-none fuel _ b.associated as')
          ∙ ap some (set-set _ a _ none ∙ set-set h a _ none)
          ∙ ap some (sym d)
      | inr t ↦
          let u : unlink b ≡ b = ap (λ s. if s then record b { next = none } else b) t in
          let d : drop_one h a ≡ save h a (record b { count = b.count - 1 }) = ap (set h a) (
            ap fewer e ∙ ap (λ s. if s then none else some (record b { count = b.count - 1 })) t) in
          ap (λ c. refbuf_release (suc (suc fuel)) (save h a c) (some a)) u
          ∙ release-shared (suc fuel) a (save h a b) b (load-set_self h a (some b) at)
              (ground arith) lt
          ∙ ap some (set-set h a (some b) _)
          ∙ ap some (sym d)
    ]
