-- ===== src/InFlight/Single.antt =====
-- crates/wiremux-auth/src/helpers.rs: one refresh at a time, and an answer for every follower.
use wiremux.Prelude.{
  lt→ltb, length-append, ℕ, zero, suc, true, List, [], ◌∷◌, ◌++◌, none, some, ◌≡◌, refl, length,
  get_elem?, ltb, ◌==◌, if◌then◌else◌, arith, ◌<◌, All, Option-cases, inl, inr, ◌↔◌,
}
use wiremux.Prelude.Results.{Result}
use wiremux.Prelude.Text.{Str}
use wiremux.InFlight.{
  Phase, leading, cleared, sent, InFlight, new, claim, set_phase, clear_slot, send, aborted, Step,
  claims, completes, drops, sends, Steps, done, then_step,
}

pub get-set_phase :
    (i j : ℕ) (p : Phase) (xs : List Phase)
    → get_elem? (set_phase i p xs) j
      ≡ (if i == j then (if ltb i (length xs) then some p else none) else get_elem? xs j)
unfolding set_phase
get-set_phase i j p [] = ground arith
get-set_phase zero zero p (x ∷ xs) = ground arith
get-set_phase zero (suc j) p (x ∷ xs) = ground arith
get-set_phase (suc i) zero p (x ∷ xs) = ground arith
get-set_phase (suc i) (suc j) p (x ∷ xs) = ground (arith, get-set_phase i j p xs)

pub get-append_one :
    (xs : List Phase) (p : Phase) (j : ℕ)
    → get_elem? (xs ++ p ∷ []) j ≡ (if j == length xs then some p else get_elem? xs j)
get-append_one [] p zero = refl
get-append_one [] p (suc j) = ground arith
get-append_one (x ∷ xs) p zero = ground arith
get-append_one (x ∷ xs) p (suc j) = ground (arith, get-append_one xs p j)

pub get-length : (xs : List Phase) (j : ℕ) (p : Phase) → get_elem? xs j ≡ some p → j < length xs
get-length [] j p h = ground arith
get-length (x ∷ xs) zero p h = omega arith
get-length (x ∷ xs) (suc j) p h = omega (arith, get-length xs j p h)

-- The channel whose refresh runs is the one in the slot.
unfoldable pub IsSingle : InFlight → Type 0
IsSingle s = (c : ℕ) → (get_elem? s.channels c ≡ some leading) ↔ (s.in_flight_slot ≡ some c)

claim-IsSingle : (s : InFlight) → IsSingle s → IsSingle (claim s).1
unfolding IsSingle claim
claim-IsSingle s h c = ground (arith, h c, get-append_one s.channels leading c)

clear_slot-IsSingle :
    (s : InFlight) (c : ℕ) (r : Result Str Str)
    → get_elem? s.channels c ≡ some leading
    → IsSingle s
    → IsSingle (clear_slot c r s)
unfolding IsSingle clear_slot
clear_slot-IsSingle s c r q h j = ground (arith, h c, h j, get-set_phase c j (cleared r) s.channels)

send-IsSingle :
    (s : InFlight) (c : ℕ) (r : Result Str Str)
    → get_elem? s.channels c ≡ some (cleared r)
    → IsSingle s
    → IsSingle (send c r s)
unfolding IsSingle send
send-IsSingle s c r q h j = ground (arith, h j, get-set_phase c j (sent r) s.channels)

pub Step-IsSingle : (s t : InFlight) → Step s t → IsSingle s → IsSingle t
Step-IsSingle _ _ (claims s) h = claim-IsSingle s h
Step-IsSingle _ _ (completes s c r q) h = clear_slot-IsSingle s c r q h
Step-IsSingle _ _ (drops s c q) h = clear_slot-IsSingle s c aborted q h
Step-IsSingle _ _ (sends s c r q) h = send-IsSingle s c r q h

pub new-IsSingle : IsSingle new
unfolding IsSingle
new-IsSingle c = ground arith

pub steps-Holds :
    (P : InFlight → Type 0)
    → ((s t : InFlight) → Step s t → P s → P t)
    → (s t : InFlight) → Steps s t
    → P s
    → P t
steps-Holds P h _ _ (done s) p = p
steps-Holds P h _ _ (then_step s t u q r) p = h t u r (steps-Holds P h s t q p)

-- However tasks claim, complete and are dropped, in any order: the refresh that runs is the one in
-- the slot, and so at most one runs at a time.
pub steps-IsSingle :
    (s : InFlight)
    → Steps new s
    → ((c : ℕ) → (get_elem? s.channels c ≡ some leading) ↔ (s.in_flight_slot ≡ some c))
      × ((c d : ℕ)
          → get_elem? s.channels c ≡ some leading
          → get_elem? s.channels d ≡ some leading
          → c ≡ d)
unfolding IsSingle
steps-IsSingle s q =
    let h = steps-Holds IsSingle Step-IsSingle new s q new-IsSingle in
    (h, (λ c d i j. ground (arith, h c, h d)))

-- The followers watch channels that there are.
unfoldable pub IsWatched : InFlight → Type 0
IsWatched s = All (λ c. ltb c (length s.channels) ≡ true) s.watched

unfoldable pub IsSound : InFlight → Type 0
IsSound s = IsSingle s × IsWatched s

pub All-mono : (P Q : ℕ → Type 0) → ((c : ℕ) → P c → Q c) → (cs : List ℕ) → All P cs → All Q cs
All-mono P Q f [] h = tt
All-mono P Q f (c ∷ cs) h = (f c h.0, All-mono P Q f cs h.1)

pub length-set_phase : (i : ℕ) (p : Phase) (xs : List Phase) → length (set_phase i p xs) ≡ length xs
unfolding set_phase
length-set_phase i p [] = refl
length-set_phase zero p (x ∷ xs) = refl
length-set_phase (suc i) p (x ∷ xs) = omega (arith, length-set_phase i p xs)

pub claim-IsWatched : (s : InFlight) → IsSound s → IsWatched (claim s).1
unfolding IsSound IsWatched IsSingle claim
claim-IsWatched s (h, w) = elim (Option-cases s.in_flight_slot) [
  | inl e ↦
      rw (claim, e)
        (All-mono (λ c. ltb c (length s.channels) ≡ true)
          (λ c. ltb c (length (s.channels ++ leading ∷ [])) ≡ true)
          (λ c q. ground (arith, length-append s.channels (leading ∷ []))) s.watched w)
  | inr (c, e) ↦
      rw (claim, e) (lt→ltb c (length s.channels) (get-length s.channels c leading ((h c).1 e)), w)
]
