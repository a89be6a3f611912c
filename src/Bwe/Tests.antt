-- ===== src/Bwe/Tests.antt =====
-- Sums of durations at concrete values.
use game_streamer_agent.Base.{◌≡◌, some, arith}
use game_streamer_agent.Bwe.Time.{TimeDelta, negative_infinity, negative, positive, add}
use game_streamer_agent.Bwe.Time.Algebra.{add_laws}

add_laws_example :
    (add (negative 3) (positive 8) ≡ add (positive 8) (negative 3))
    × ((s : TimeDelta) × (t : TimeDelta) × (u : TimeDelta) × (add (negative 3) (positive 8)
          ≡ some s)
        × (add (positive 8) negative_infinity ≡ some t)
        × (add s negative_infinity ≡ some u)
        × (add (negative 3) t ≡ some u))
add_laws_example = add_laws (negative 3) (positive 8) negative_infinity (omega arith)
