-- ===== src/Mpeg/Detect/Answers.antt =====
-- The answers of the checks for a format.
use mcaster1dnas.Base.{ℕ, Bytes, get_elem?, none, some}

-- 1 for a format, -1 for none, 0 for more data needed; a read outside the block; out of fuel.
pub data Answer : Type 0 where
  detected absent wait overrun stuck : Answer

-- A read of the block, and what is done with the byte.
abbrev pub and_read : Bytes → ℕ → (ℕ → Answer) → Answer
and_read p i next = elim (get_elem? p i) [ none ↦ overrun | some b ↦ next b ]
