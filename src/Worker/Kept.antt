-- ===== src/Worker/Kept.antt =====
-- src/client.c, lines 605 to 799: no step of a worker loses a client or lists it twice.
use mcaster1dnas.Worker.Tally.{
  IsWorker, held, one, end-unlink, length-unlink, link_end, tally, tally-append, tally-set,
  tally-unlink,
}
use mcaster1dnas.Base.{
  ℕ, get_elem?, some, ◌≡◌, List, ap, if◌then◌else◌, length, suc, ◌==◌, [], arith, drop, if-cases,
  length-append, length-set, set, sym, ◌++◌, ◌+◌, ◌-◌, ◌∙◌, ◌∷◌, false, refl, true,
}
use mcaster1dnas.Worker.{
  Client, Worker, end_without, to_fast, unlink_normal, without, Turn, current, has_clients, link,
  next_at, to_normal, unlink_fast, is_fast, keep_client, rest_count, swap_client,
}

-- A step keeps the lists in order, and every client in them as often as it was.
pub record Keeps (w v : Worker) : Type 0 where
  pub ordered : IsWorker v
  pub same : (n : ℕ) → held n v ≡ held n w

pub end_without-length :
    (l : List Client) (k at : ℕ) (c : Client)
    → k ≡ length l
    → get_elem? l at ≡ some c
    → end_without l k at ≡ length (without l at)
end_without-length l k at c e g =
    if-cases (λ m. m ≡ length (without l at)) (has_clients (drop (suc at) l)) (k - 1) at
      (λ t. omega (arith, e, length-unlink at l c g)) (λ t. sym (end-unlink at l c g t))

pub length-link :
    (l : List Client) (k : ℕ) (c : Client)
    → k ≡ length l
    → length (link l k (c ∷ [])) ≡ length l + 1
length-link l k c e = ap length (link_end l k (c ∷ []) e) ∙ length-append l (c ∷ [])

pub length_more :
    (l : List Client) (k : ℕ) (c : Client) → k ≡ length l → k + 1 ≡ length (link l k (c ∷ []))
length_more l k c e = omega (arith, e, length-link l k c e)

pub tally-link :
    (n : ℕ) (l : List Client) (k : ℕ) (c : Client)
    → k ≡ length l
    → tally n (link l k (c ∷ [])) ≡ tally n l + one n c
tally-link n l k c e =
    let m : tally n (l ++ (c ∷ [])) ≡ tally n l + one n c =
      omega (arith, tally-append n l (c ∷ [])) in
    ap (tally n) (link_end l k (c ∷ []) e) ∙ m

module _ (w : Worker) (at : ℕ) (c d : Client) (i : IsWorker w) (same : d.number ≡ c.number) where
  one_same : (n : ℕ) → one n d ≡ one n c
  one_same n = ap (λ m. if m == n then 1 else 0) same

  to_fast-Keeps : get_elem? w.clients at ≡ some c → Keeps w (to_fast (unlink_normal w at) d)
  to_fast-Keeps g = record {
    ordered = record {
      fast_end = length_more w.fast_clients w.fast_tail d i.fast_end;
      pending_end = i.pending_end;
      end = end_without-length w.clients w.last at c i.end g;
      counted = omega (
        arith,
        i.counted,
        length-link w.fast_clients w.fast_tail d i.fast_end,
        length-unlink at w.clients c g,
      );
      pending_counted = i.pending_counted;
    };
    same = λ n. omega (
      arith,
      one_same n,
      tally-link n w.fast_clients w.fast_tail d i.fast_end,
      tally-unlink n at w.clients c g,
    );
  }

  to_normal-Keeps : get_elem? w.fast_clients at ≡ some c → Keeps w (to_normal (unlink_fast w at) d)
  to_normal-Keeps g = record {
    ordered = record {
      fast_end = end_without-length w.fast_clients w.fast_tail at c i.fast_end g;
      pending_end = i.pending_end;
      end = length_more w.clients w.last d i.end;
      counted = omega (
        arith,
        i.counted,
        length-link w.clients w.last d i.end,
        length-unlink at w.fast_clients c g,
      );
      pending_counted = i.pending_counted;
    };
    same = λ n. omega (
      arith,
      one_same n,
      tally-link n w.clients w.last d i.end,
      tally-unlink n at w.fast_clients c g,
    );
  }

  keep_normal-Keeps :
      get_elem? w.clients at ≡ some c → Keeps w (record w { clients = set w.clients at d })
  keep_normal-Keeps g = record {
    ordered = record {
      fast_end = i.fast_end;
      pending_end = i.pending_end;
      end = omega (arith, i.end, length-set w.clients at d);
      counted = omega (arith, i.counted, length-set w.clients at d);
      pending_counted = i.pending_counted;
    };
    same = λ n. omega (arith, tally-set n at w.clients c d g same);
  }

  keep_fast-Keeps :
      get_elem? w.fast_clients at ≡ some c
      → Keeps w (record w { fast_clients = set w.fast_clients at d })
  keep_fast-Keeps g = record {
    ordered = record {
      fast_end = omega (arith, i.fast_end, length-set w.fast_clients at d);
      pending_end = i.pending_end;
      end = i.end;
      counted = omega (arith, i.counted, length-set w.fast_clients at d);
      pending_counted = i.pending_counted;
    };
    same = λ n. omega (arith, tally-set n at w.fast_clients c d g same);
  }

module _ (w : Worker) (t : Turn) (c : Client) (i : IsWorker w)
    (g : get_elem? (current w t) t.prevp ≡ some c) where
  pub in_normal : t.normal ≡ true → get_elem? w.clients t.prevp ≡ some c
  in_normal e = ap (λ b. get_elem? (if b then w.clients else w.fast_clients) t.prevp) (sym e) ∙ g

  pub in_fast : t.normal ≡ false → get_elem? w.fast_clients t.prevp ≡ some c
  in_fast e = ap (λ b. get_elem? (if b then w.clients else w.fast_clients) t.prevp) (sym e) ∙ g

  swap_client-Keeps : (d : Client) → d.number ≡ c.number → Keeps w (swap_client w t d)
  swap_client-Keeps d h =
      if-cases (Keeps w) t.normal (to_fast (unlink_normal w t.prevp) d)
        (to_normal (unlink_fast w t.prevp) d) (λ e. to_fast-Keeps w t.prevp c d i h (in_normal e))
        (λ e. to_normal-Keeps w t.prevp c d i h (in_fast e))

  keep_client-Keeps : (d : Client) → d.number ≡ c.number → Keeps w (keep_client w t d)
  keep_client-Keeps d h =
      if-cases (Keeps w) t.normal (record w { clients = set w.clients t.prevp d })
        (record w { fast_clients = set w.fast_clients t.prevp d })
        (λ e. keep_normal-Keeps w t.prevp c d i h (in_normal e))
        (λ e. keep_fast-Keeps w t.prevp c d i h (in_fast e))

  pub next_at-Keeps : Keeps w (next_at w t c).0
  next_at-Keeps =
      if-cases (λ (r : Worker × Turn). Keeps w r.0) t.normal _ _
        (λ e.
          if-cases (λ (r : Worker × Turn). Keeps w r.0) (is_fast w c) _ _
            (λ f. swap_client-Keeps c refl) (λ f. keep_client-Keeps (rest_count c) refl))
        (λ e.
          if-cases (λ (r : Worker × Turn). Keeps w r.0) (is_fast w c) _ _
            (λ f. keep_client-Keeps (record c { fast_count = c.fast_count + 1 }) refl)
            (λ f. swap_client-Keeps (rest_count c) refl))
