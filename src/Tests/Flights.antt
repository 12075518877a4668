-- ===== src/Tests/Flights.antt =====
-- Two tasks that want a token at once, and the theorems at that state.
use wiremux.Prelude.{ℕ, some, ◌≡◌, ◌↔◌, get_elem?}
use wiremux.Prelude.Results.{Result}
use wiremux.Prelude.Text.{Str}
use wiremux.InFlight.{leading, sent, InFlight, new, claim, claims, Steps, done, then_step}
use wiremux.InFlight.Single.{steps-IsSingle}
use wiremux.InFlight.Answer.{IsAnswered, steps-IsAnswered}

abbrev first_claim : InFlight
first_claim = (claim new).1

abbrev both_claim : InFlight
both_claim = (claim first_claim).1

abbrev to_both : Steps new both_claim
to_both =
    then_step new first_claim both_claim (then_step new new first_claim (done new) (claims new))
      (claims first_claim)

steps-IsSingle_example :
    ((c : ℕ)
      → (get_elem? both_claim.channels c ≡ some leading) ↔ (both_claim.in_flight_slot ≡ some c))
    × ((c d : ℕ)
        → get_elem? both_claim.channels c ≡ some leading
        → get_elem? both_claim.channels d ≡ some leading
        → c ≡ d)
steps-IsSingle_example = steps-IsSingle both_claim to_both

steps-IsAnswered_example :
    ((i c : ℕ) → get_elem? both_claim.watched i ≡ some c → IsAnswered both_claim c)
    × ((t : InFlight) (c : ℕ) (r : Result Str Str)
        → Steps both_claim t
        → get_elem? both_claim.channels c ≡ some (sent r)
        → get_elem? t.channels c ≡ some (sent r))
steps-IsAnswered_example = steps-IsAnswered both_claim to_both
