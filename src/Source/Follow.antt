-- ===== src/Source/Follow.antt =====
-- A listener that follows the queue, and why its block is still there.
use mcaster1dnas.Source.Blocks.{rest, rest_le, total, rest-suc, drop-get}
use mcaster1dnas.Source.Growth.{Holds, IsQueue}
use mcaster1dnas.Base.{
  ℕ, All, Bool-cases, List, [], arith, drop, false, get_elem?, get_elem?-some, inl, inr, leb,
  leb→le, length, ltb, refl, some, subst, suc, true, zero, ◌&&◌, ◌+◌, ◌-◌, ◌<◌, ◌==◌, ◌||◌, ◌∷◌,
  ◌≡◌, ◌≤◌, sym,
}
use mcaster1dnas.Source.{Block, Queue, sub64}
use mcaster1dnas.Source.Serve.{queued, nothing, copied, Held, Listener, block_at}

-- A listener within the block `k` of those ever queued: its position counts the bytes up to there.
pub record FollowsAt (all : List Block) (k : ℕ) (c : Listener) : Type 0 where
  pub held : c.refbuf ≡ queued k
  pub no_intro : c.intro ≡ false
  pub lt : k < length all
  pub pos_le : c.pos + rest all (suc k) ≤ rest all k
  pub position : c.queue_pos + rest all k ≡ total all + c.pos

-- What is known of a listener, by what it holds.
abbrev pub FollowsBy : List Block → Listener → Held → Type 0
FollowsBy all c nothing = Unit
FollowsBy all c (queued k) = FollowsAt all k c
FollowsBy all c (copied b) = c.on_intro ≡ true

unfoldable pub Follows : List Block → Listener → Type 0
Follows all c = FollowsBy all c c.refbuf

pub Follows-queued : (all : List Block) (k : ℕ) (c : Listener) → FollowsAt all k c → Follows all c
unfolding Follows
Follows-queued all k c f = subst (FollowsBy all c) (sym f.held) f

-- Blocks as formats make them.
abbrev pub Sized : Block → Type 0
Sized b = (0 < b.len) × (b.len ≤ 66000)

pub get_elem?-drop {ℓ} :
    {A : Type ℓ} (d j : ℕ) (xs : List A) → get_elem? (drop d xs) j ≡ get_elem? xs (d + j)
get_elem?-drop zero j xs = let e : 0 + j ≡ j = omega arith in rw e refl
get_elem?-drop (suc d) j [] = refl
get_elem?-drop (suc d) j (x ∷ xs) =
    let e : suc d + j ≡ suc (d + j) = omega arith in rw e (get_elem?-drop d j xs)

pub get-All {ℓ κ} :
    {A : Type ℓ} (P : A → Type κ) (xs : List A) (k : ℕ) (b : A)
    → All P xs
    → get_elem? xs k ≡ some b
    → P b
get-All P [] k b h e = absurd (ground arith)
get-All P (x ∷ xs) zero b h e = subst P (ground arith) h.0
get-All P (x ∷ xs) (suc k) b h e = get-All P xs k b h.1 e

pub block_at-live :
    (all : List Block) (q : Queue) (k : ℕ)
    → Holds all q
    → q.dropped ≤ k
    → block_at q k ≡ get_elem? all k
block_at-live all q k v h =
    let t : ltb k q.dropped ≡ false = ground arith in
    let e : q.dropped + (k - q.dropped) ≡ k = omega arith in
    rw (t, v.blocks, get_elem?-drop q.dropped (k - q.dropped) all, e) refl

pub rest-block :
    (all : List Block) (k : ℕ) (b : Block)
    → get_elem? all k ≡ some b
    → rest all k ≡ b.len + rest all (suc k)
rest-block all k b e = rest-suc all k b (drop (suc k) all) (drop-get k all b e)

rest_lt :
    (all : List Block) (k : ℕ) → All Sized all → k < length all → rest all (suc k) < rest all k
rest_lt all k s h =
    let (b, e) = get_elem?-some all k h in
    omega (arith, rest-block all k b e, (get-All Sized all k b s e).0)

pub lag-rest :
    (all : List Block) (q : Queue) (k : ℕ) (c : Listener)
    → IsQueue all q
    → FollowsAt all k c
    → sub64 q.queue_pos c.queue_pos + c.pos ≡ rest all k
lag-rest all q k c v f =
    omega (arith, v.position, v.position_fits, f.position, f.pos_le, rest_le all 0 k (omega arith))

-- A listener that the test for the lag does not remove has a block that is on the queue.
pub kept-live :
    (all : List Block) (q : Queue) (k : ℕ) (c : Listener)
    → IsQueue all q
    → All Sized all
    → FollowsAt all k c
    → (ltb q.queue_size (sub64 q.queue_pos c.queue_pos)
        || ((sub64 q.queue_pos c.queue_pos == q.queue_size) && ltb 0 c.pos))
      ≡ false
    → q.dropped ≤ k
kept-live all q k c v s f t = elim (Bool-cases (leb q.dropped k)) [
  | inl e ↦ leb→le q.dropped k e
  | inr e ↦ absurd (
      ground (
        arith,
        lag-rest all q k c v f,
        rest_lt all k s f.lt,
        rest_le all (suc k) q.dropped (ground arith),
        v.holds.size,
        f.pos_le,
      ))
]
