-- ===== src/Util/Rate.antt =====
-- src/util.c, lines 711 to 888: the rate of a stream, from samples in a window of time. The ring of
-- nodes is a list from the oldest, which is `current->next`, to the newest, which is `current`.
-- Another thread does not come between: the code looks again when that happened.
pub mod Window
pub mod Sum
mod Tests
use mcaster1dnas.Base.{
  ℕ, List, Option, [], if◌then◌else◌, leb, ltb, none, some, ◌%◌, ◌&&◌, ◌++◌, ◌+◌, ◌-◌, ◌==◌, ◌||◌,
  ◌∷◌,
}

-- `struct rate_calc_node`
pub record Node : Type 0 where
  pub index : ℕ
  pub value : ℕ

-- `struct rate_calc`
pub record Rate : Type 0 where
  pub total : ℕ
  pub cycle_till : ℕ
  pub nodes : List Node
  pub samples : ℕ
  pub ssec : ℕ
  pub blocks : ℕ

-- Sums and differences of 64 bits.
abbrev pub add64 : ℕ → ℕ → ℕ
add64 a b = (a + b) % 18446744073709551616

abbrev pub sub64 : ℕ → ℕ → ℕ
sub64 a b = (a + 18446744073709551616 - b) % 18446744073709551616

-- `rate_setup`; `none` is NULL.
unfoldable pub rate_setup : ℕ → ℕ → Option Rate
rate_setup samples ssec =
    if ltb samples 2 || (ssec == 0)
    then none
    else some (record {
      total = 0;
      cycle_till = 0;
      nodes = [];
      samples = samples;
      ssec = ssec;
      blocks = 0;
    })

-- The loop of `rate_purge_entries`: the nodes left, the total and the count.
unfoldable pub purge : ℕ → ℕ → ℕ → List Node → ℕ × ℕ × List Node
purge cutoff total count [] = (total, count, [])
purge cutoff total count (n ∷ []) =
    if ltb 0 count && leb n.index cutoff then (0, count - 1, []) else (total, count, n ∷ [])
purge cutoff total count (n ∷ m ∷ l) =
    let further = purge cutoff (sub64 total n.value) (count - 1) (m ∷ l) in
    if ltb 0 count && leb n.index cutoff then further else (total, count, n ∷ m ∷ l)

-- `rate_purge_entries`
unfoldable pub rate_purge_entries : Rate → ℕ → Rate
unfolding purge
rate_purge_entries c cutoff =
    let (total, blocks, nodes) = purge cutoff c.total c.blocks c.nodes in
    record c { total = total; blocks = blocks; nodes = nodes }

-- `calc->current`
abbrev pub newest : List Node → Option Node
newest [] = none
newest (n ∷ []) = some n
newest (n ∷ m ∷ l) = newest (m ∷ l)

-- A change of it.
abbrev pub set_newest : List Node → Node → List Node
set_newest [] v = []
set_newest (n ∷ []) v = v ∷ []
set_newest (n ∷ m ∷ l) v = n ∷ set_newest (m ∷ l) v

-- The bound before which samples are dropped, and the end of the time in which fewer are kept.
abbrev pub choose_cutoff : Rate → ℕ → ℕ × ℕ
choose_cutoff c sid = elim c.nodes [
  | [] ↦ (sub64 sid c.samples, 0)
  | next ∷ l ↦
      if ltb 0 c.cycle_till && ltb next.index c.cycle_till
      then (next.index + 1, c.cycle_till)
      else (sub64 sid c.samples, 0)
]

-- A node for a new sample: the oldest one is used again when it is out of the window.
abbrev pub place_node : Rate → ℕ → ℕ → ℕ → List Node → Rate
place_node c value sid cutoff [] = record c {
  nodes = record { index = sid; value = value } ∷ [];
  blocks = c.blocks + 1;
}
place_node c value sid cutoff (next ∷ l) =
    if ltb next.index cutoff
    then record c {
      nodes = l ++ (record { index = sid; value = value } ∷ []);
      total = sub64 c.total next.value;
    }
    else record c {
      nodes = next ∷ l ++ (record { index = sid; value = value } ∷ []);
      blocks = c.blocks + 1;
    }

-- The sample in a node of its own.
unfoldable pub add_node : Rate → ℕ → ℕ → ℕ → Rate
unfolding rate_purge_entries
add_node c value sid cutoff =
    let placed : Rate = place_node c value sid cutoff c.nodes in
    rate_purge_entries (record placed { total = add64 placed.total value }) cutoff

-- `rate_add_sum`, for the sum as it is and as it will be. The sample goes to the newest node if
-- that is of the same time.
unfoldable pub rate_add_sum : Rate → ℕ → ℕ → ℕ → Rate × ℕ
unfolding rate_purge_entries add_node
rate_add_sum c value sid sum =
    let cut : ℕ × ℕ = choose_cutoff c sid in
    let d : Rate = record c { cycle_till = cut.1 } in
    elim (newest c.nodes) [
      | none ↦ (add_node d value sid cut.0, add64 sum value)
      | some n ↦
          if (value == 0) && (n.value == 0)
          then (
            rate_purge_entries (record d { nodes = set_newest c.nodes (record n { index = sid }) })
                cut.0,
            sum,
          )
          else if sid == n.index
          then (
            record d {
              nodes = set_newest c.nodes (record n { value = add64 n.value value });
              total = add64 d.total value;
            },
            add64 sum value,
          )
          else (add_node d value sid cut.0, add64 sum value)
    ]

-- `rate_avg_shorten`; the quotient of floating-point numbers is an argument.
unfoldable pub rate_avg_shorten : (ℕ → ℕ → ℕ → ℕ) → Rate → ℕ → ℕ
rate_avg_shorten average c t = elim c.nodes [
  | [] ↦ average 0 1 1
  | oldest ∷ l ↦ elim (newest (oldest ∷ l)) [
    | none ↦ average 0 1 1
    | some n ↦
        if ltb 1 c.blocks
        then average c.total (if ltb (n.index - oldest.index) 1 then 1 else n.index - oldest.index)
            (if ltb t c.ssec then c.ssec - t else 1)
        else average 0 1 1
  ]
]

-- `rate_reduce`
unfoldable pub rate_reduce : Rate → ℕ → Rate
unfolding rate_purge_entries
rate_reduce c range = elim (newest c.nodes) [
  | none ↦ c
  | some n ↦
      if ltb 0 range && ltb 1 c.blocks
      then rate_purge_entries (record c { cycle_till = n.index }) (sub64 n.index range)
      else c
]
