-- ===== src/Lockbased/Deque/Spec.antt =====
-- What a deque promises, on the list of its values from front to back.
use data_structure_benchmark.Base.{List, [], ◌∷◌, ◌++◌}
use data_structure_benchmark.Base.Int.{ℤ, minus_one}

pub data Side : Type 0 where
  front back : Side

unfoldable pub put : Side → ℤ → List ℤ → List ℤ
put front v vs = v ∷ vs
put back v vs = vs ++ v ∷ []

-- the first value and the rest; -1 from the empty list
unfoldable pub take_front : List ℤ → ℤ × List ℤ
take_front [] = (minus_one, [])
take_front (v ∷ vs) = (v, vs)

unfoldable pub take_back : List ℤ → ℤ × List ℤ
take_back [] = (minus_one, [])
take_back (v ∷ []) = (v, [])
take_back (v ∷ w ∷ vs) = let (r, rest) = take_back (w ∷ vs) in (r, v ∷ rest)

unfoldable pub take : Side → List ℤ → ℤ × List ℤ
unfolding take_front take_back
take front vs = take_front vs
take back vs = take_back vs
