-- ===== src/Util/Pattern/Tests.antt =====
-- Runs of the expansion of patterns, and an instance of its theorem.
use mcaster1dnas.Base.{arith, codes, length, refl, some, ◌++◌, ◌≡◌}
use mcaster1dnas.Util.Pattern.{expand_pattern, after_tag, expand_loop}
use mcaster1dnas.Util.Pattern.Expansion.{expand_pattern-IsExpansion, byte, done, mount}

-- A buffer of seven bytes is told to hold six, and eight are written, with a NUL behind them.
written_outside :
    expand_pattern (some (codes "/live")) (some (codes "${mount}${mount}")) 7
    ≡ some (codes "livelive", 8)
unfolding expand_pattern expand_loop after_tag
written_outside = refl

expand_pattern-IsExpansion_example :
    expand_pattern (some (codes "/live")) (some (codes "${mount}" ++ codes ".")) 10
    ≡ some (codes "live" ++ codes ".", length (codes "live" ++ codes "."))
expand_pattern-IsExpansion_example =
    expand_pattern-IsExpansion (codes "/live") (codes "${mount}" ++ codes ".")
      (codes "live" ++ codes ".") 10 (omega arith) (omega arith)
      (mount (byte b'.' (λ q e. absurd (ground arith)) done)) (omega arith)
