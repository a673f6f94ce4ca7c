-- ===== src/Source/Joined.antt =====
-- src/source.c, lines 1183 to 1257: where a listener begins.
use mcaster1dnas.Source.Follow.{get_elem?-drop, FollowsAt, rest-block}
use mcaster1dnas.Source.Burst.{Marks}
use mcaster1dnas.Source.Blocks.{
  rest, get-drop, drop-suc, drop-lt, rest-suc, rest_le, get-lt, rest-end,
}
use mcaster1dnas.Source.Growth.{IsQueue, from-drop}
use mcaster1dnas.Base.{
  ℕ, Bool-cases, List, Option, [], arith, drop, get_elem?, if-cases, inl, inr, length, ltb, refl,
  some, subst, suc, sym, true, ◌&&◌, ◌+◌, ◌-◌, ◌∷◌, ◌≡◌, ◌≤◌, Option-cases, ap, length-drop, ◌<◌,
  ◌∙◌, false,
}
use mcaster1dnas.Source.{Block, Queue, from, sub64}
use mcaster1dnas.Source.Serve.{
  Listener, burst_size, choose_start, find_sync, tail_number, walk_burst, join, locate_start,
}

-- A place at which a listener can begin: on the queue, at a block that is marked as a start, with
-- the number of bytes from there on.
pub record Starts (all : List Block) (q : Queue) (m : ℕ × ℕ) : Type 0 where
  pub live : q.dropped ≤ m.0
  pub block : Block
  pub at : get_elem? all m.0 ≡ some block
  pub sync : block.sync ≡ true
  pub lag : m.1 ≡ rest all m.0

module _ (all : List Block) (q : Queue) (v : IsQueue all q) where
  walk_burst-Marks :
      (l : List Block) (size u lag k : ℕ)
      → drop k all ≡ l
      → q.dropped ≤ k
      → k ≤ length all
      → lag ≡ rest all k
      → Marks all q.dropped (walk_burst size u lag k l)
  unfolding walk_burst
  walk_burst-Marks [] size u lag k e d h m = (d, h, m)
  walk_burst-Marks (b ∷ []) size u lag k e d h m = (d, h, m)
  walk_burst-Marks (b ∷ c ∷ l) size u lag k e d h m =
      if-cases (Marks all q.dropped) (ltb u size) _ (k, lag)
        (λ t.
          walk_burst-Marks (c ∷ l) (sub64 size b.len) u (sub64 lag b.len) (suc k)
            (drop-suc k all b (c ∷ l) e) (omega arith) (omega (arith, drop-lt k all b (c ∷ l) e))
            (omega
              (arith, m, rest-suc all k b (c ∷ l) e, rest_le all q.dropped k d, v.holds.size_fits)))
        (λ t. (d, h, m))

  find_sync-Starts :
      (l : List Block) (lag k : ℕ) (m : ℕ × ℕ)
      → drop k all ≡ l
      → q.dropped ≤ k
      → lag ≡ rest all k
      → find_sync lag k l ≡ some m
      → Starts all q m
  unfolding find_sync
  find_sync-Starts [] lag k m e d h f = absurd (ground arith)
  find_sync-Starts (b ∷ l) lag k m e d h f = elim (Bool-cases b.sync) [
    | inl t ↦
        subst (Starts all q) (ground arith)
          (record { live = d; block = b; at = get-drop k all b l e; sync = t; lag = h })
    | inr t ↦
        find_sync-Starts l (sub64 lag b.len) (suc k) m (drop-suc k all b l e) (omega arith)
          (omega (arith, h, rest-suc all k b l e, rest_le all q.dropped k d, v.holds.size_fits))
          (ground arith)
  ]

  tail-Marks :
      (tail : Block)
      → get_elem? q.stream_data (length q.stream_data - 1) ≡ some tail
      → Marks all q.dropped (tail_number q, tail.len)
  tail-Marks tail e =
      let n : length q.stream_data ≡ length all - q.dropped =
        ap length v.holds.blocks ∙ length-drop q.dropped all in
      let lt : length q.stream_data - 1 < length q.stream_data = get-lt _ q.stream_data tail e in
      let i : q.dropped + (length q.stream_data - 1) ≡ tail_number q = omega arith in
      let at : get_elem? all (tail_number q) ≡ some tail =
        ap (get_elem? all) (sym i)
        ∙ sym (get_elem?-drop q.dropped (length q.stream_data - 1) all)
        ∙ ap (λ l. get_elem? l (length q.stream_data - 1)) (sym v.holds.blocks)
        ∙ e in
      (
        omega arith,
        omega (arith, n, v.holds.dropped_le),
        omega (
          arith,
          n,
          v.holds.dropped_le,
          rest-block all (tail_number q) tail at,
          rest-end all (suc (tail_number q)) (omega (arith, n, v.holds.dropped_le)),
        ),
      )

  choose_start-Marks :
      (burst : Option ℕ) (c : Listener) (tail : Block)
      → get_elem? q.stream_data (length q.stream_data - 1) ≡ some tail
      → Marks all q.dropped (choose_start q burst c tail)
  unfolding choose_start
  choose_start-Marks burst c tail e =
      if-cases (Marks all q.dropped) (ltb q.min_queue_offset c.sent_bytes && tail.sync)
        (tail_number q, tail.len) _ (λ t. tail-Marks tail e)
        (λ t.
          if-cases (Marks all q.dropped) (ltb c.sent_bytes (burst_size q burst)) _
            (tail_number q, tail.len)
            (λ u.
              walk_burst-Marks _ q.min_queue_size (burst_size q burst - c.sent_bytes)
                q.min_queue_offset q.min_queue_point
                (sym (from-drop all q q.min_queue_point v.holds v.holds.point_ge)) v.holds.point_ge
                v.holds.point_le v.holds.offset)
            (λ u. tail-Marks tail e))

  Starts-FollowsAt : (c : Listener) (m : ℕ × ℕ) → Starts all q m → FollowsAt all m.0 (join q c m)
  Starts-FollowsAt c m w = record {
    held = refl;
    no_intro = refl;
    lt = get-lt m.0 all w.block w.at;
    pos_le = omega (arith, rest-block all m.0 w.block w.at);
    position = omega (arith, v.position, v.position_fits, w.lag, rest_le all 0 m.0 (omega arith));
  }

  -- A listener that finds a place has it on the queue, at the start of a block marked for this,
  -- and its position is that of the place.
  pub locate_start-Starts :
      (burst : Option ℕ) (c : Listener)
      → (locate_start q burst c).0 ≡ true
      → (m : ℕ × ℕ) × Starts all q m
        × ((locate_start q burst c).1 ≡ join q c m)
        × FollowsAt all m.0 (join q c m)
  unfolding locate_start
  locate_start-Starts burst c h = elim (Bool-cases c.error) [
    | inl e ↦ absurd (ground arith)
    | inr e ↦ elim (Option-cases (get_elem? q.stream_data (length q.stream_data - 1))) [
      | inl t ↦ absurd (ground arith)
      | inr (tail, t) ↦
          let start : ℕ × ℕ = choose_start q burst c tail in
          let d : Marks all q.dropped start = choose_start-Marks burst c tail t in
          elim (Option-cases (find_sync start.1 start.0 (from q start.0))) [
            | inl f ↦ absurd (ground arith)
            | inr (m, f) ↦
                let w : Starts all q m =
                  find_sync-Starts _ start.1 start.0 m (sym (from-drop all q start.0 v.holds d.0))
                    d.0 d.2 f in
                (m, w, simp (e, t, f, locate_start) refl, Starts-FollowsAt c m w)
          ]
    ]
  ]

  -- Where no place is found, the listener is only put off.
  pub locate_start-refbuf :
      (burst : Option ℕ) (c : Listener)
      → (locate_start q burst c).0 ≡ false
      → (locate_start q burst c).1.refbuf ≡ c.refbuf
  unfolding locate_start
  locate_start-refbuf burst c h = elim (Bool-cases c.error) [
    | inl e ↦ ground arith
    | inr e ↦ elim (Option-cases (get_elem? q.stream_data (length q.stream_data - 1))) [
      | inl t ↦ ground arith
      | inr (tail, t) ↦
          let start : ℕ × ℕ = choose_start q burst c tail in
          elim (Option-cases (find_sync start.1 start.0 (from q start.0))) [
            | inl f ↦ ground arith
            | inr (m, f) ↦ absurd (ground arith)
          ]
    ]
  ]
