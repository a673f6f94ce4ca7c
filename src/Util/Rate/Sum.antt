-- ===== src/Util/Rate/Sum.antt =====
-- src/util.c, lines 777 to 857: what a sample does to a rate.
use mcaster1dnas.Util.Rate.Window.{
  rate_purge_entries-kept, kept-all, kept-append, Sorted-append, values-append, Sorted, IsRate,
  values, Before, kept, sample, add_node-kept,
}
use mcaster1dnas.Base.{
  ◌≢◌, Bool-cases, none, length-append, ℕ, List, [], ap, arith, if-cases, if◌then◌else◌, length,
  ltb, refl, some, subst, suc, ◌&&◌, ◌++◌, ◌+◌, ◌<◌, ◌∷◌, ◌≡◌, ◌≤◌, Option-cases, false, inl, inr,
  sym, true, ◌==◌, ◌∙◌,
}
use mcaster1dnas.Util.Rate.{
  rate_purge_entries, Rate, Node, add64, choose_cutoff, newest, rate_add_sum, set_newest, sub64,
}

choose_cutoff_lt :
    (c : Rate) (sid : ℕ)
    → c.cycle_till < sid
    → 0 < c.samples
    → c.samples ≤ sid
    → sid < 18446744073709551616
    → (choose_cutoff c sid).0 < sid
choose_cutoff_lt c sid h k m f =
    elim c.nodes
      as (λ l.
        (elim l as (λ x. ℕ × ℕ) [
          | [] ↦ (sub64 sid c.samples, 0)
          | next ∷ l ↦
              if ltb 0 c.cycle_till && ltb next.index c.cycle_till
              then (next.index + 1, c.cycle_till)
              else (sub64 sid c.samples, 0)
        ]).0
        < sid) [
          | [] ↦ omega arith
          | next ∷ l ↦
              if-cases (λ (r : ℕ × ℕ). r.0 < sid)
                (ltb 0 c.cycle_till && ltb next.index c.cycle_till) (next.index + 1, c.cycle_till)
                (sub64 sid c.samples, 0) (λ e. ground arith) (λ e. omega arith)
        ]

newest_lt : (l : List Node) (n : Node) (sid : ℕ) → Before sid l → newest l ≡ some n → n.index < sid
newest_lt [] n sid b e = absurd (ground arith)
newest_lt (m ∷ []) n sid b e = let q : m ≡ n = ground arith in subst (λ x. x.index < sid) q b.0
newest_lt (m ∷ o ∷ l) n sid b e = newest_lt (o ∷ l) n sid b.1 e

newest-append : (l : List Node) (n : Node) → newest (l ++ (n ∷ [])) ≡ some n
newest-append [] n = refl
newest-append (m ∷ []) n = refl
newest-append (m ∷ o ∷ l) n = newest-append (o ∷ l) n

set_newest-append : (l : List Node) (n v : Node) → set_newest (l ++ (n ∷ [])) v ≡ l ++ (v ∷ [])
set_newest-append [] n v = refl
set_newest-append (m ∷ []) n v = refl
set_newest-append (m ∷ o ∷ l) n v = ap (λ k. m ∷ k) (set_newest-append (o ∷ l) n v)

newest→append :
    (l : List Node) (n : Node) → newest l ≡ some n → (before : List Node) × (l ≡ before ++ (n ∷ []))
newest→append [] n e = absurd (ground arith)
newest→append (m ∷ []) n e = ([], let q : m ≡ n = ground arith in ap (λ x. x ∷ []) q)
newest→append (m ∷ o ∷ l) n e =
    let (before, p) = newest→append (o ∷ l) n e in (m ∷ before, ap (λ k. m ∷ k) p)

Sorted-init : (l : List Node) (n : Node) → Sorted (l ++ (n ∷ [])) → Sorted l
Sorted-init [] n s = tt
Sorted-init (m ∷ []) n s = tt
Sorted-init (m ∷ o ∷ l) n s = (s.0, Sorted-init (o ∷ l) n s.1)

Before-init : (sid : ℕ) (l : List Node) (n : Node) → Before sid (l ++ (n ∷ [])) → Before sid l
Before-init sid [] n b = tt
Before-init sid (m ∷ l) n b = (b.0, Before-init sid l n b.1)

-- The samples that stand before a new one: all that are there, but a newest one of 0 gives way to
-- another 0.
pub data Stand (value : ℕ) (l : List Node) : List Node → Type 0 where
  all :
      ((n : Node) (before : List Node) → l ≡ before ++ (n ∷ []) → value ≡ 0 → n.value ≢ 0)
      → Stand value l l
  idle :
      (n : Node) (before : List Node)
      → l ≡ before ++ (n ∷ [])
      → value ≡ 0
      → n.value ≡ 0
      → Stand value l before

-- A new sample of 0 in the place of the newest one.
moved-kept :
    (d : Rate) (n : Node) (before : List Node) (sid cut : ℕ)
    → IsRate d
    → Before sid d.nodes
    → d.nodes ≡ before ++ (n ∷ [])
    → n.value ≡ 0
    → cut < sid
    → (let r =
          rate_purge_entries
            (record d { nodes = set_newest d.nodes (record n { index = sid }) })
            cut in
        (r.nodes ≡ kept cut before ++ (sample sid 0 ∷ [])) × IsRate r)
moved-kept d n before sid cut v b e z lt =
    let new : Node = record n { index = sid } in
    let is : new ≡ sample sid 0 = ap (λ x. record { index = sid; value = x }) z in
    let m : set_newest d.nodes new ≡ before ++ (new ∷ []) =
      ap (λ l. set_newest l new) e ∙ set_newest-append before n new in
    let w : IsRate (record d { nodes = before ++ (new ∷ []) }) = record {
      sorted =
          Sorted-append before new (Sorted-init before n (subst Sorted e v.sorted))
            (Before-init sid before n (subst (Before sid) e b));
      total = omega (
        arith,
        v.total,
        ap values e,
        values-append before (n ∷ []),
        values-append before (new ∷ []),
      );
      fits = omega (
        arith,
        v.fits,
        ap values e,
        values-append before (n ∷ []),
        values-append before (new ∷ []),
      );
      blocks = omega (
        arith,
        v.blocks,
        ap length e,
        length-append before (n ∷ []),
        length-append before (new ∷ []),
      );
    } in
    let (k, x) =
      rate_purge_entries-kept cut (record d { nodes = set_newest d.nodes new })
        (subst (λ l. IsRate (record d { nodes = l })) (sym m) w) in
    (
      k
          ∙ ap (kept cut) m
          ∙ kept-append cut before (new ∷ [])
          ∙ ap (λ l. kept cut before ++ l) (kept-all cut new [] lt tt)
          ∙ ap (λ y. kept cut before ++ (y ∷ [])) is,
      x,
    )

-- What a sample of its own time makes of a rate, for the samples that stand before it.
pub record Sampled (c : Rate) (value sid sum : ℕ) (before : List Node) (r : Rate × ℕ) : Type 0 where
  pub nodes : r.0.nodes ≡ kept (choose_cutoff c sid).0 before ++ (sample sid value ∷ [])
  pub is_rate : IsRate r.0
  pub added : r.1 ≡ add64 sum value

-- A sample of a time that is later than all others and than the end of a cycle: the window then has
-- the samples after its bound and the new one, where a newest sample of 0 gives way to a 0; the
-- total and the count are those of the window, and the value is added to the sum. The time is at
-- least the length of the window, and neither it nor the values exceed 64 bits.
pub rate_add_sum-window :
    (c : Rate) (value sid sum : ℕ)
    → IsRate c
    → Before sid c.nodes
    → c.cycle_till < sid
    → 0 < c.samples
    → c.samples ≤ sid
    → sid < 18446744073709551616
    → values c.nodes + value < 18446744073709551616
    → sum < 18446744073709551616
    → (before : List Node) × Stand value c.nodes before
      × Sampled c value sid sum before (rate_add_sum c value sid sum)
unfolding rate_add_sum
rate_add_sum-window c value sid sum v b h k m f fits small =
    let cut : ℕ × ℕ = choose_cutoff c sid in
    let lt = choose_cutoff_lt c sid h k m f in
    let d : Rate = record c { cycle_till = cut.1 } in
    let w : IsRate d = record {
      sorted = v.sorted;
      total = v.total;
      fits = v.fits;
      blocks = v.blocks;
    } in
    let (n, i) = add_node-kept value sid cut.0 d w b lt fits in
    elim (Option-cases (newest c.nodes)) [
      | inl e ↦ (
        c.nodes,
        all (λ x before q z y. absurd (none-append c.nodes before x e q)),
        rw (e, rate_add_sum) (record { nodes = n; is_rate = i; added = refl }),
      )
      | inr (x, e) ↦ elim (Bool-cases ((value == 0) && (x.value == 0))) [
        | inl z ↦
            let (before, q) = newest→append c.nodes x e in
            let zx : x.value ≡ 0 = ground arith in
            let zv : value ≡ 0 = ground arith in
            let (o, r) = moved-kept d x before sid cut.0 w b q zx lt in
            (
              before,
              idle x before q zv zx,
              rw (e, z, rate_add_sum)
                  (record {
                    nodes = o ∙ ap (λ y. kept cut.0 before ++ (sample sid y ∷ [])) (sym zv);
                    is_rate = r;
                    added = omega arith;
                  }),
            )
        | inr z ↦
            let u : (sid == x.index) ≡ false = ground (arith, newest_lt c.nodes x sid b e) in
            (
              c.nodes,
              all (λ y before q zv zy.
                  let s : x ≡ y = newest-unique c.nodes before x y e q in
                  absurd (ground (arith, ap (λ (t : Node). t.value) s))),
              rw (e, z, u, rate_add_sum) (record { nodes = n; is_rate = i; added = refl }),
            )
      ]
    ]
  where
    none-append : (l before : List Node) (x : Node) → newest l ≡ none → l ≢ before ++ (x ∷ [])
    none-append l before x e q =
        let s : none ≡ some x = sym e ∙ ap newest q ∙ newest-append before x in cc

    newest-unique :
        (l before : List Node) (x y : Node) → newest l ≡ some x → l ≡ before ++ (y ∷ []) → x ≡ y
    newest-unique l before x y e q =
        let s : some x ≡ some y = sym e ∙ ap newest q ∙ newest-append before y in ground arith

-- A change of the newest sample.
values-set_newest :
    (l : List Node) (n v : Node)
    → newest l ≡ some n
    → values (set_newest l v) + n.value ≡ values l + v.value
values-set_newest [] n v e = absurd (ground arith)
values-set_newest (m ∷ []) n v e =
    let q : m ≡ n = ground arith in omega (arith, ap (λ (x : Node). x.value) q)
values-set_newest (m ∷ o ∷ l) n v e = omega (arith, values-set_newest (o ∷ l) n v e)

length-set_newest : (l : List Node) (v : Node) → length (set_newest l v) ≡ length l
length-set_newest [] v = refl
length-set_newest (m ∷ []) v = refl
length-set_newest (m ∷ o ∷ l) v = ap suc (length-set_newest (o ∷ l) v)

Sorted-set_newest :
    (l : List Node) (n v : Node)
    → newest l ≡ some n
    → n.index ≡ v.index
    → Sorted l
    → Sorted (set_newest l v)
Sorted-set_newest [] n v e q s = tt
Sorted-set_newest (m ∷ []) n v e q s = tt
Sorted-set_newest (m ∷ o ∷ []) n v e q s =
    let p : o ≡ n = ground arith in (omega (arith, s.0, q, ap (λ (x : Node). x.index) p), tt)
Sorted-set_newest (m ∷ o ∷ r ∷ l) n v e q s = (s.0, Sorted-set_newest (o ∷ r ∷ l) n v e q s.1)

newest_le : (l : List Node) (n : Node) → newest l ≡ some n → n.value ≤ values l
newest_le [] n e = absurd (ground arith)
newest_le (m ∷ []) n e = let q : m ≡ n = ground arith in omega (arith, ap (λ (x : Node). x.value) q)
newest_le (m ∷ o ∷ l) n e = omega (arith, newest_le (o ∷ l) n e)

-- A sample of the time of the newest one: its value is added there, and nothing leaves the window.
pub rate_add_sum-same_time :
    (c : Rate) (n : Node) (value sum : ℕ)
    → IsRate c
    → newest c.nodes ≡ some n
    → 0 < value
    → values c.nodes + value < 18446744073709551616
    → (values (rate_add_sum c value n.index sum).0.nodes ≡ values c.nodes + value)
      × IsRate (rate_add_sum c value n.index sum).0
unfolding rate_add_sum
rate_add_sum-same_time c n value sum v e pos fits =
    let more : Node = record n { value = add64 n.value value } in
    let le : n.value ≤ values c.nodes = newest_le c.nodes n e in
    let s : values (set_newest c.nodes more) ≡ values c.nodes + value =
      omega (arith, values-set_newest c.nodes n more e) in
    let z : ((value == 0) && (n.value == 0)) ≡ false = ground arith in
    let u : (n.index == n.index) ≡ true = ground arith in
    rw (e, z, u, rate_add_sum)
      (
        s,
        record {
          sorted = Sorted-set_newest c.nodes n more e refl v.sorted;
          total = omega (arith, s, v.total);
          fits = omega (arith, s);
          blocks = v.blocks ∙ sym (length-set_newest c.nodes more);
        },
      )
