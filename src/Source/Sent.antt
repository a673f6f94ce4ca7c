-- ===== src/Source/Sent.antt =====
-- src/source.c, lines 1094 to 1180: a listener is served.
use mcaster1dnas.Source.Joined.{locate_start-Starts, locate_start-refbuf}
use mcaster1dnas.Source.Blocks.{drop-get, rest_le}
use mcaster1dnas.Source.Growth.{IsQueue}
use mcaster1dnas.Source.Follow.{
  Follows, Sized, FollowsAt, rest-block, Follows-queued, block_at-live, get-All, FollowsBy,
  kept-live,
}
use mcaster1dnas.Base.{
  ℕ, All, List, [], ap, arith, get_elem?, if-cases, length, length-drop, ltb, refl, some, suc, ◌+◌,
  ◌∷◌, ◌≡◌, ◌≤◌, Option-cases, false, get_elem?-some, inl, inr, leb, leb→le, sym, zero, ◌-◌, ◌∙◌,
  Bool, if◌then◌else◌, none, true, ◌&&◌, ◌/◌, ◌==◌, ◌||◌, Option, Bool-cases, subst, ◌⊎◌,
}
use mcaster1dnas.Source.{Block, Queue, sub64}
use mcaster1dnas.Source.Serve.{
  served, Listener, Served, queued, write_block, write_to_client, block_at, send_blocks, freed,
  may_requeue, nothing, requeue, serve, copied, locate_start, queue_advance, serve_held, Held,
  begun,
}

-- The service ended with a listener that still follows the queue. `counted` says that its position
-- went on by the bytes that were written.
pub record Went (all : List Block) (start : ℕ) (r : Served) : Type 0 where
  pub listener : Listener
  pub written : ℕ
  pub ended : r ≡ served listener written
  pub follows : Follows all listener
  pub counted : listener.queue_pos ≡ start + written

module _ (all : List Block) (q : Queue) (v : IsQueue all q) (s : All Sized all) where
  write_block-FollowsAt :
      (k : ℕ) (c : Listener) (b : Block) (offers : List ℕ)
      → get_elem? all k ≡ some b
      → FollowsAt all k c
      → FollowsAt all k (write_block c b offers).0
  write_block-FollowsAt k c b [] e f = f
  write_block-FollowsAt k c b (n ∷ l) e f =
      if-cases (λ (r : Listener × List ℕ). FollowsAt all k r.0) (ltb c.pos b.len)
        (write_to_client c b n, l) (c, n ∷ l)
        (λ t. record {
          held = f.held;
          no_intro = f.no_intro;
          lt = f.lt;
          pos_le = omega (arith, f.pos_le, rest-block all k b e);
          position = omega (
            arith,
            f.position,
            f.pos_le,
            v.position_fits,
            rest-block all k b e,
            rest_le all 0 k (omega arith),
          );
        })
        (λ t. f)

  write_block-counts :
      (k : ℕ) (c : Listener) (b : Block) (offers : List ℕ)
      → get_elem? all k ≡ some b
      → FollowsAt all k c
      → (write_block c b offers).0.queue_pos + c.pos ≡ c.queue_pos + (write_block c b offers).0.pos
  write_block-counts k c b offers e f =
      omega (arith, f.position, (write_block-FollowsAt k c b offers e f).position)

  -- The next block, behind one that is read to its end.
  next-FollowsAt :
      (k : ℕ) (c : Listener) (b n : Block)
      → get_elem? all k ≡ some b
      → get_elem? all (suc k) ≡ some n
      → b.len ≤ c.pos
      → FollowsAt all k c
      → FollowsAt all (suc k) (record c { refbuf = queued (suc k); pos = 0 })
  next-FollowsAt k c b n e g h f = record {
    held = refl;
    no_intro = f.no_intro;
    lt = omega (arith, ap length (drop-get (suc k) all n g), length-drop (suc k) all);
    pos_le = omega (arith, rest-block all (suc k) n g);
    position = omega (arith, f.position, f.pos_le, rest-block all k b e);
  }

  -- The bytes written in a turn, added to those before it.
  turn-counts :
      (k : ℕ) (c : Listener) (b : Block) (offers : List ℕ) (start written : ℕ)
      → get_elem? all k ≡ some b
      → FollowsAt all k c
      → c.queue_pos ≡ start + written
      → (write_block c b offers).0.queue_pos
        ≡ start + (written + ((write_block c b offers).0.pos - c.pos))
  turn-counts k c b [] start written e f h = omega (arith, h)
  turn-counts k c b (n ∷ l) start written e f h =
      ground (arith, write_block-counts k c b (n ∷ l) e f)

  send_blocks-Went :
      (loop k : ℕ) (offers : List ℕ) (c : Listener) (start written : ℕ)
      → q.dropped ≤ k
      → FollowsAt all k c
      → c.queue_pos ≡ start + written
      → Went all start (send_blocks loop q k offers c written)
  unfolding send_blocks
  send_blocks-Went zero k offers c start written d f h = record {
    listener = c;
    written = written;
    ended = refl;
    follows = Follows-queued all k c f;
    counted = h;
  }
  send_blocks-Went (suc loop) k offers c start written d f h =
      let (b, e) = get_elem?-some all k f.lt in
      let live : block_at q k ≡ some b = block_at-live all q k v.holds d ∙ e in
      let small : ltb 66000 b.len ≡ false = ground (arith, (get-All Sized all k b s e).1) in
      let next : Listener = (write_block c b offers).0 in
      let sum : ℕ = written + (next.pos - c.pos) in
      let g : FollowsAt all k next = write_block-FollowsAt k c b offers e f in
      let at : next.queue_pos ≡ start + sum = turn-counts k c b offers start written e f h in
      let stop : Went all start (served next sum) = record {
        listener = next;
        written = sum;
        ended = refl;
        follows = Follows-queued all k next g;
        counted = at;
      } in
      rw (live, small, send_blocks)
        (if-cases (Went all start) (leb b.len next.pos) _ (served next sum)
          (λ t. elim (Option-cases (block_at q (suc k))) [
            | inl o ↦ rw o stop
            | inr (n, o) ↦ rw o (
                send_blocks-Went loop (suc k) (write_block c b offers).1
                  (record next { refbuf = queued (suc k); pos = 0 }) start sum (omega arith)
                  (next-FollowsAt k next b n e
                    (sym (block_at-live all q (suc k) v.holds (omega arith)) ∙ o) (leb→le _ _ t) g)
                  at)
          ])
          (λ t. stop))

  -- A listener that is only put off follows as before.
  put_off-FollowsAt :
      (k : ℕ) (c : Listener) (n : ℕ)
      → FollowsAt all k c
      → FollowsAt all k (record c { schedule_ms = n })
  put_off-FollowsAt k c n f = record {
    held = f.held;
    no_intro = f.no_intro;
    lt = f.lt;
    pos_le = f.pos_le;
    position = f.position;
  }

  requeue-Follows : (c : Listener) (b : Block) → Follows all (requeue q c b)
  unfolding Follows
  requeue-Follows c b =
      if-cases (λ c'. FollowsBy all c' c'.refbuf) (ltb c.pos b.len) _ _ (λ t. refl) (λ t. tt)

  requeue-queue_pos : (c : Listener) (b : Block) → (requeue q c b).queue_pos ≡ c.queue_pos
  requeue-queue_pos c b = ground arith

  -- A listener that was not removed for its lag.
  serve_near-Went :
      (k : ℕ) (norequeue : Bool) (offers : List ℕ) (c : Listener)
      → q.dropped ≤ k
      → FollowsAt all k c
      → Went all c.queue_pos (
          if may_requeue q norequeue c (sub64 q.queue_pos c.queue_pos)
          then (elim (block_at q k) [ none ↦ freed | some b ↦ served (requeue q c b) 0 ])
          else send_blocks 49 q k offers c 0)
  serve_near-Went k norequeue offers c d f =
      let (b, e) = get_elem?-some all k f.lt in
      if-cases (Went all c.queue_pos) (may_requeue q norequeue c (sub64 q.queue_pos c.queue_pos)) _
        _
        (λ t. rw (block_at-live all q k v.holds d ∙ e) (record {
          listener = requeue q c b;
          written = 0;
          ended = refl;
          follows = requeue-Follows c b;
          counted = omega (arith, requeue-queue_pos c b);
        }))
        (λ t. send_blocks-Went 49 k offers c c.queue_pos 0 d f (omega arith))

  serve-Went :
      (k : ℕ) (norequeue : Bool) (offers : List ℕ) (c : Listener)
      → FollowsAt all k c
      → Went all c.queue_pos (serve q norequeue offers c k)
  unfolding serve Follows
  serve-Went k norequeue offers c f =
      let lag = sub64 q.queue_pos c.queue_pos in
      if-cases (Went all c.queue_pos) c.intro _ _ (λ t. absurd (ground (arith, f.no_intro)))
        (λ i.
          if-cases (Went all c.queue_pos) (lag == 0) _ _
            (λ t. record {
              listener = record c { schedule_ms = c.schedule_ms + 5 + q.incoming_adj / 2 };
              written = 0;
              ended = refl;
              follows = Follows-queued all k _ (put_off-FollowsAt k c _ f);
              counted = omega arith;
            })
            (λ t.
              if-cases (Went all c.queue_pos)
                (ltb q.queue_size lag || ((lag == q.queue_size) && ltb 0 c.pos)) _ _
                (λ u. record {
                  listener = record c { refbuf = nothing; error = true };
                  written = 0;
                  ended = refl;
                  follows = tt;
                  counted = omega arith;
                })
                (λ u. serve_near-Went k norequeue offers c (kept-live all q k c v s f u) f)))

  serve_held-Went :
      (norequeue : Bool) (offers : List ℕ) (c : Listener) (k : ℕ)
      → FollowsAt all k c
      → Went all c.queue_pos (serve_held q norequeue offers c c.refbuf)
  serve_held-Went norequeue offers c k f =
      subst (λ r. Went all c.queue_pos (serve_held q norequeue offers c r)) (sym f.held)
        (serve-Went k norequeue offers c f)

  -- Either a listener has a place, or none was found and it still holds nothing.
  begun-cases :
      (burst : Option ℕ) (c : Listener) (r : Held)
      → c.refbuf ≡ r
      → FollowsBy all c r
      → c.on_intro ≡ false
      → ((begun q burst c r).0 ≡ true) × ((k : ℕ) × FollowsAt all k (begun q burst c r).1)
        ⊎ ((begun q burst c r).0 ≡ false) × ((begun q burst c r).1.refbuf ≡ nothing)
  begun-cases burst c nothing e f h = elim (Bool-cases (locate_start q burst c).0) [
    | inl t ↦
        let (m, w, p, g) = locate_start-Starts all q v burst c t in
        inl (t, (m.0, subst (FollowsAt all m.0) (sym p) g))
    | inr t ↦ inr (t, locate_start-refbuf all q v burst c t ∙ e)
  ]
  begun-cases burst c (queued k) e f h = inl (refl, (k, f))
  begun-cases burst c (copied b) e f h = absurd (ground arith)

  -- A listener is served without an access to a block that was released and without `abort`: what
  -- it holds is on the queue or it is removed, and then it follows the queue as before. The bytes
  -- it was sent are those that its position went on by from where it was or joined.
  pub queue_advance-Went :
      (burst : Option ℕ) (norequeue : Bool) (offers : List ℕ) (c : Listener)
      → Follows all c
      → c.on_intro ≡ false
      → Went all (begun q burst c c.refbuf).1.queue_pos (queue_advance q burst norequeue offers c)
  unfolding Follows queue_advance
  queue_advance-Went burst norequeue offers c f h =
      let found : Bool × Listener = begun q burst c c.refbuf in
      elim (begun-cases burst c c.refbuf refl f h) [
        | inl (t, (k, g)) ↦ rw (t, queue_advance) (serve_held-Went norequeue offers found.1 k g)
        | inr (t, g) ↦
            rw (t, queue_advance)
              (record {
                listener = found.1;
                written = 0;
                ended = refl;
                follows = subst (FollowsBy all found.1) (sym g) tt;
                counted = omega arith;
              })
      ]
