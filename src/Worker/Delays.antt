-- ===== src/Worker/Delays.antt =====
-- The delay before an attempt, from the list of delays.
use event_driven_arch.Common.{ℕ, ◌≤◌, ◌≡◌, [], ◌∷◌, some, arith, refl}
use event_driven_arch.Domain.Entities.{Duration}
use event_driven_arch.Worker.{backoff_index, delay}

-- With three delays, attempt by attempt, the last one for every attempt after the third.
pub delay_of_three :
    (a b d : Duration) (n : ℕ)
    → let backoff = a ∷ b ∷ d ∷ [] in
      (delay backoff 0 ≡ some a) × (delay backoff 1 ≡ some b) × (2 ≤ n → delay backoff n ≡ some d)
unfolding delay backoff_index
delay_of_three a b d n = (refl, refl, λ h. ground arith)
