-- ===== src/Util/Rate/Window.antt =====
-- src/util.c, lines 730 to 857: the samples of a rate are those of a window of time.
use mcaster1dnas.Base.{
  ℕ, All, Bool-cases, List, [], ap, arith, false, if-cases, if◌then◌else◌, inl, inr, leb, length,
  ltb, refl, subst, sym, true, ◌++◌, ◌+◌, ◌-◌, ◌<◌, ◌∙◌, ◌∷◌, ◌≡◌, ◌≤◌, ◌&&◌, length-append,
}
use mcaster1dnas.Util.Rate.{
  Rate, Node, purge, sub64, add64, place_node, rate_purge_entries, add_node,
}

-- Times that go on.
abbrev pub Sorted : List Node → Type 0
Sorted [] = Unit
Sorted (n ∷ []) = Unit
Sorted (n ∷ m ∷ l) = (n.index < m.index) × Sorted (m ∷ l)

abbrev pub Before : ℕ → List Node → Type 0
Before t l = All (λ n. n.index < t) l

-- The samples after a time.
abbrev pub kept : ℕ → List Node → List Node
kept t [] = []
kept t (n ∷ l) = if leb n.index t then kept t l else n ∷ kept t l

abbrev pub values : List Node → ℕ
values [] = 0
values (n ∷ l) = n.value + values l

-- The state of a rate: the total and the count are those of its samples.
pub record IsRate (c : Rate) : Type 0 where
  pub sorted : Sorted c.nodes
  pub total : c.total ≡ values c.nodes
  pub fits : values c.nodes < 18446744073709551616
  pub blocks : c.blocks ≡ length c.nodes

pub kept-all :
    (t : ℕ) (n : Node) (l : List Node) → t < n.index → Sorted (n ∷ l) → kept t (n ∷ l) ≡ n ∷ l
kept-all t n [] h s = let e : leb n.index t ≡ false = ground arith in rw e refl
kept-all t n (m ∷ l) h s =
    let e : leb n.index t ≡ false = ground arith in
    ap (λ b. if b then kept t (m ∷ l) else n ∷ kept t (m ∷ l)) e
    ∙ ap (λ k. n ∷ k) (kept-all t m l (omega (arith, s.0)) s.1)

pub kept-append : (t : ℕ) (l k : List Node) → kept t (l ++ k) ≡ kept t l ++ kept t k
kept-append t [] k = refl
kept-append t (n ∷ l) k = elim (Bool-cases (leb n.index t)) [
  | inl e ↦ rw e (kept-append t l k)
  | inr e ↦ rw e (ap (λ x. n ∷ x) (kept-append t l k))
]

pub values-append : (l k : List Node) → values (l ++ k) ≡ values l + values k
values-append [] k = omega arith
values-append (n ∷ l) k = omega (arith, values-append l k)

kept-Sorted : (t : ℕ) (l : List Node) → Sorted l → Sorted (kept t l)
kept-Sorted t [] s = tt
kept-Sorted t (n ∷ []) s = if-cases Sorted (leb n.index t) [] (n ∷ []) (λ e. tt) (λ e. tt)
kept-Sorted t (n ∷ m ∷ l) s =
    if-cases Sorted (leb n.index t) (kept t (m ∷ l)) (n ∷ kept t (m ∷ l))
      (λ e. kept-Sorted t (m ∷ l) s.1)
      (λ e. subst Sorted (ap (λ k. n ∷ k) (sym (kept-all t m l (ground (arith, s.0)) s.1))) s)

values-kept : (t : ℕ) (l : List Node) → values (kept t l) ≤ values l
values-kept t [] = omega arith
values-kept t (n ∷ l) =
    if-cases (λ k. values k ≤ n.value + values l) (leb n.index t) (kept t l) (n ∷ kept t l)
      (λ e. omega (arith, values-kept t l)) (λ e. omega (arith, values-kept t l))

pub Sorted-append :
    (l : List Node) (n : Node) → Sorted l → Before n.index l → Sorted (l ++ (n ∷ []))
Sorted-append [] n s b = tt
Sorted-append (m ∷ []) n s b = (b.0, tt)
Sorted-append (m ∷ o ∷ l) n s b = (s.0, Sorted-append (o ∷ l) n s.1 b.1)

-- The loop keeps what lies after the bound.
purge-kept :
    (t total count : ℕ) (l : List Node)
    → Sorted l
    → total ≡ values l
    → values l < 18446744073709551616
    → count ≡ length l
    → purge t total count l ≡ (values (kept t l), length (kept t l), kept t l)
unfolding purge
purge-kept t total count [] s v f c = rw (v, c) refl
purge-kept t total count (n ∷ []) s v f c = elim (Bool-cases (leb n.index t)) [
  | inl e ↦ rw (c, e) refl
  | inr e ↦ rw (v, c, e) refl
]
purge-kept t total count (n ∷ m ∷ l) s v f c = elim (Bool-cases (leb n.index t)) [
  | inl e ↦
      let p : ltb 0 count ≡ true = ground (arith, c) in
      rw (p, e)
        (purge-kept t (sub64 total n.value) (count - 1) (m ∷ l) s.1 (omega (arith, v)) (omega arith)
          (omega (arith, c)))
  | inr e ↦
      let q : (ltb 0 count && leb n.index t) ≡ false = ground arith in
      ap
        (λ b.
          if b
          then purge t (sub64 total n.value) (count - 1) (m ∷ l)
          else (total, count, n ∷ m ∷ l))
        q
      ∙ subst (λ k. ◌≡◌ {A = ℕ × ℕ × List Node} (total, count, n ∷ m ∷ l) (values k, length k, k))
          (sym (kept-all t n (m ∷ l) (ground arith) s)) (rw (v, c) refl)
]

-- A purge leaves a state of the samples after its bound.
pub rate_purge_entries-kept :
    (t : ℕ) (c : Rate)
    → IsRate c
    → ((rate_purge_entries c t).nodes ≡ kept t c.nodes) × IsRate (rate_purge_entries c t)
unfolding rate_purge_entries
rate_purge_entries-kept t c v =
    let p = purge-kept t c.total c.blocks c.nodes v.sorted v.total v.fits v.blocks in
    let n : (purge t c.total c.blocks c.nodes).2 ≡ kept t c.nodes =
      ap (λ (r : ℕ × ℕ × List Node). r.2) p in
    (
      n,
      record {
        sorted = subst Sorted (sym n) (kept-Sorted t c.nodes v.sorted);
        total = ap (λ (r : ℕ × ℕ × List Node). r.0) p ∙ ap values (sym n);
        fits = omega (arith, ap values n, values-kept t c.nodes, v.fits);
        blocks = ap (λ (r : ℕ × ℕ × List Node). r.1) p ∙ ap length (sym n);
      },
    )

abbrev pub sample : ℕ → ℕ → Node
sample sid value = record { index = sid; value = value }

lt→leb : (a b : ℕ) → ltb a b ≡ true → leb a b ≡ true
lt→leb a b h = ground arith

Sorted-tail : (n : Node) (l : List Node) → Sorted (n ∷ l) → Sorted l
Sorted-tail n [] s = tt
Sorted-tail n (m ∷ l) s = s.1

-- A sample in a new node, for the samples that are there.
place_node-kept :
    (value sid t : ℕ) (c : Rate) (l : List Node)
    → c.nodes ≡ l
    → IsRate c
    → Before sid l
    → t < sid
    → values l + value < 18446744073709551616
    → (let placed = place_node c value sid t l in
        (kept t placed.nodes ≡ kept t l ++ (sample sid value ∷ []))
        × IsRate (record placed { total = add64 placed.total value }))
place_node-kept value sid t c [] e v b h f = (
  kept-all t (sample sid value) [] h tt,
  record {
    sorted = tt;
    total = omega (arith, v.total, ap values e);
    fits = omega arith;
    blocks = omega (arith, v.blocks, ap length e);
  },
)
place_node-kept value sid t c (n ∷ l) e v b h f =
    let new : List Node = sample sid value ∷ [] in
    let s : Sorted (n ∷ l) = subst Sorted e v.sorted in
    let total : c.total ≡ n.value + values l = v.total ∙ ap values e in
    let tail : kept t (l ++ new) ≡ kept t l ++ new =
      kept-append t l new ∙ ap (λ k. kept t l ++ k) (kept-all t (sample sid value) [] h tt) in
    if-cases
      (λ r.
        (kept t r.nodes ≡ kept t (n ∷ l) ++ new)
        × IsRate (record r { total = add64 r.total value }))
      (ltb n.index t) (record c { nodes = l ++ new; total = sub64 c.total n.value })
      (record c { nodes = n ∷ l ++ new; blocks = c.blocks + 1 })
      (λ u. (
        tail ∙ ap (λ g. (if g then kept t l else n ∷ kept t l) ++ new) (sym (lt→leb n.index t u)),
        record {
          sorted = Sorted-append l (sample sid value) (Sorted-tail n l s) b.1;
          total = omega (arith, total, values-append l new);
          fits = omega (arith, values-append l new);
          blocks = omega (arith, v.blocks, ap length e, length-append l new);
        },
      ))
      (λ u. (
        kept-append t (n ∷ l) new
            ∙ ap (λ k. kept t (n ∷ l) ++ k) (kept-all t (sample sid value) [] h tt),
        record {
          sorted = Sorted-append (n ∷ l) (sample sid value) s b;
          total = omega (arith, total, values-append l new);
          fits = omega (arith, values-append l new);
          blocks = omega (arith, v.blocks, ap length e, length-append l new);
        },
      ))

-- A sample in a node of its own: the samples after the bound, and it.
pub add_node-kept :
    (value sid t : ℕ) (c : Rate)
    → IsRate c
    → Before sid c.nodes
    → t < sid
    → values c.nodes + value < 18446744073709551616
    → ((add_node c value sid t).nodes ≡ kept t c.nodes ++ (sample sid value ∷ []))
      × IsRate (add_node c value sid t)
unfolding add_node
add_node-kept value sid t c v b h f =
    let (k, w) = place_node-kept value sid t c c.nodes refl v b h f in
    let placed : Rate = place_node c value sid t c.nodes in
    let (m, x) = rate_purge_entries-kept t (record placed { total = add64 placed.total value }) w in
    (m ∙ k, x)
