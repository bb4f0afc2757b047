-- ===== src/Examples/Compactions.antt =====
-- The choice of a compaction at concrete inputs.
use go_durable_engine.Prelude.{ℕ, ◌≡◌, refl, List, [], ◌∷◌}
use go_durable_engine.Compact.{FileRef, sweep, exchange, pick_by_size}

abbrev file : ℕ → ℕ → ℕ → FileRef
file n level size = record { path = n ∷ []; name = n ∷ []; level = level; size = size }

abbrev three : List FileRef
three = file 1 0 30 ∷ file 2 1 10 ∷ file 3 0 20 ∷ []

two_smallest : pick_by_size three 2 ≡ file 2 1 10 ∷ file 3 0 20 ∷ []
unfolding pick_by_size exchange sweep
two_smallest = refl
