-- ===== src/Util/Rate/Tests.antt =====
-- Rates at concrete samples.
use mcaster1dnas.Util.Rate.Sum.{Sampled, Stand, rate_add_sum-window}
use mcaster1dnas.Util.Rate.Window.{IsRate, sample, kept}
use mcaster1dnas.Base.{List, [], arith, refl, ◌∷◌, ◌≡◌}
use mcaster1dnas.Util.Rate.{Node, Rate, rate_add_sum}

abbrev two_samples : Rate
two_samples = record {
  total = 300;
  cycle_till = 0;
  nodes = sample 100 100 ∷ sample 103 200 ∷ [];
  samples = 5;
  ssec = 1;
  blocks = 2;
}

two_samples-IsRate : IsRate two_samples
two_samples-IsRate = record {
  sorted = (omega arith, tt);
  total = refl;
  fits = omega arith;
  blocks = refl;
}

rate_add_sum-window_example :
    (before : List Node) × Stand 50 two_samples.nodes before
    × Sampled two_samples 50 106 0 before (rate_add_sum two_samples 50 106 0)
rate_add_sum-window_example =
    rate_add_sum-window two_samples 50 106 0 two_samples-IsRate (omega arith, (omega arith, tt))
      (omega arith) (omega arith) (omega arith) (omega arith) (omega arith) (omega arith)

-- The window keeps the second sample and the new one.
kept_samples : kept 101 two_samples.nodes ≡ sample 103 200 ∷ []
kept_samples = refl
