-- ===== src/Worker/Tally.antt =====
-- How often a client is in the lists of a worker, and when the lists are in order.
use mcaster1dnas.Source.Blocks.{get-lt, drop-get}
use mcaster1dnas.Base.{
  ℕ, List, [], ap, arith, drop, false, get_elem?, if◌then◌else◌, length, length-append, length-drop,
  length-take, refl, set, some, suc, sym, take, zero, ◌++◌, ◌+◌, ◌==◌, ◌∙◌, ◌∷◌, ◌≡◌,
}
use mcaster1dnas.Worker.{Client, Worker, has_clients, link}

abbrev pub one : ℕ → Client → ℕ
one n c = if c.number == n then 1 else 0

abbrev pub tally : ℕ → List Client → ℕ
tally n [] = 0
tally n (c ∷ l) = one n c + tally n l

-- How often the client with the number `n` is in any list of the worker.
abbrev pub held : ℕ → Worker → ℕ
held n w = tally n w.fast_clients + tally n w.clients + tally n w.pending_clients

-- The ends and the counts are those of the lists.
pub record IsWorker (w : Worker) : Type 0 where
  pub fast_end : w.fast_tail ≡ length w.fast_clients
  pub pending_end : w.pending_tail ≡ length w.pending_clients
  pub end : w.last ≡ length w.clients
  pub counted : w.count ≡ length w.fast_clients + length w.clients
  pub pending_counted : w.pending_count ≡ length w.pending_clients

pub tally-append : (n : ℕ) (l k : List Client) → tally n (l ++ k) ≡ tally n l + tally n k
tally-append n [] k = omega arith
tally-append n (c ∷ l) k = omega (arith, tally-append n l k)

take_all : (l : List Client) → take (length l) l ≡ l
take_all [] = refl
take_all (c ∷ l) = ap (λ k. c ∷ k) (take_all l)

-- A write at the end of a list is an addition to it.
pub link_end :
    (l : List Client) (at : ℕ) (more : List Client) → at ≡ length l → link l at more ≡ l ++ more
link_end l at more e = ap (λ k. take k l ++ more) e ∙ ap (λ k. k ++ more) (take_all l)

pub tally-take-drop :
    (n k : ℕ) (l : List Client) → tally n (take k l) + tally n (drop k l) ≡ tally n l
tally-take-drop n zero l = omega arith
tally-take-drop n (suc k) [] = omega arith
tally-take-drop n (suc k) (c ∷ l) = omega (arith, tally-take-drop n k l)

-- A list without its client at a place.
pub tally-unlink :
    (n k : ℕ) (l : List Client) (c : Client)
    → get_elem? l k ≡ some c
    → tally n (link l k (drop (suc k) l)) + one n c ≡ tally n l
tally-unlink n k l c e = omega (
  arith,
  tally-append n (take k l) (drop (suc k) l),
  tally-take-drop n k l,
  ap (tally n) (drop-get k l c e),
)

pub length-unlink :
    (k : ℕ) (l : List Client) (c : Client)
    → get_elem? l k ≡ some c
    → suc (length (link l k (drop (suc k) l))) ≡ length l
length-unlink k l c e = omega (
  arith,
  length-append (take k l) (drop (suc k) l),
  length-take k l,
  length-drop (suc k) l,
  get-lt k l c e,
)

-- Behind the last client the place is the end of what is left.
pub end-unlink :
    (k : ℕ) (l : List Client) (c : Client)
    → get_elem? l k ≡ some c
    → has_clients (drop (suc k) l) ≡ false
    → length (link l k (drop (suc k) l)) ≡ k
end-unlink k l c e h = omega (
  arith,
  length-unlink k l c e,
  get-lt k l c e,
  length-drop (suc k) l,
  no_clients (drop (suc k) l) h,
)
  where
    no_clients : (l : List Client) → has_clients l ≡ false → length l ≡ 0
    no_clients [] h = refl
    no_clients (x ∷ l) h = absurd (ground arith)

pub tally-set :
    (n k : ℕ) (l : List Client) (c d : Client)
    → get_elem? l k ≡ some c
    → d.number ≡ c.number
    → tally n (set l k d) ≡ tally n l
tally-set n k [] c d e h = refl
tally-set n zero (x ∷ l) c d e h =
    let q : x ≡ c = ground arith in
    let m : x.number ≡ d.number = ap (λ (y : Client). y.number) q ∙ sym h in
    ap (λ i. (if i == n then 1 else 0) + tally n l) (sym m)
tally-set n (suc k) (x ∷ l) c d e h = ap (λ i. one n x + i) (tally-set n k l c d e h)
