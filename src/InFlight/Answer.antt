-- ===== src/InFlight/Answer.antt =====
-- crates/wiremux-auth/src/helpers.rs: every follower of a refresh gets one answer.
use wiremux.Prelude.{
  lt→ltb, ltb→lt, ℕ, zero, suc, true, List, [], ◌∷◌, Option, none, some, ◌≡◌, refl, length,
  get_elem?, ltb, arith, ◌<◌, All,
}
use wiremux.Prelude.Results.{Result}
use wiremux.Prelude.Text.{Str}
use wiremux.InFlight.{
  Phase, leading, cleared, sent, InFlight, new, claim, set_phase, clear_slot, send, aborted, Step,
  claims, completes, drops, sends, Steps, done, then_step,
}
use wiremux.InFlight.Single.{
  IsSound, IsWatched, claim-IsWatched, Step-IsSingle, new-IsSingle, steps-Holds, length-set_phase,
  get-set_phase, get-append_one, get-length, All-mono,
}

set-IsWatched :
    (s : InFlight) (slot : Option ℕ) (c : ℕ) (p : Phase)
    → IsWatched s
    → IsWatched (record s { in_flight_slot = slot; channels = set_phase c p s.channels })
unfolding IsWatched
set-IsWatched s slot c p w =
    All-mono (λ d. ltb d (length s.channels) ≡ true)
      (λ d. ltb d (length (set_phase c p s.channels)) ≡ true)
      (λ d q. ground (arith, length-set_phase c p s.channels)) s.watched w

Step-IsSound : (s t : InFlight) → Step s t → IsSound s → IsSound t
unfolding IsSound clear_slot send
Step-IsSound _ _ (claims s) h = (Step-IsSingle s (claim s).1 (claims s) h.0, claim-IsWatched s h)
Step-IsSound _ _ (completes s c r q) h = (
  Step-IsSingle s (clear_slot c r s) (completes s c r q) h.0,
  set-IsWatched s none c (cleared r) h.1,
)
Step-IsSound _ _ (drops s c q) h = (
  Step-IsSingle s (clear_slot c aborted s) (drops s c q) h.0,
  set-IsWatched s none c (cleared aborted) h.1,
)
Step-IsSound _ _ (sends s c r q) h = (
  Step-IsSingle s (send c r s) (sends s c r q) h.0,
  set-IsWatched s s.in_flight_slot c (sent r) h.1,
)

new-IsSound : IsSound new
unfolding IsSound IsWatched
new-IsSound = (new-IsSingle, tt)

get-below : (xs : List Phase) (j : ℕ) → j < length xs → (p : Phase) × (get_elem? xs j ≡ some p)
get-below [] j h = ground arith
get-below (x ∷ xs) zero h = (x, refl)
get-below (x ∷ xs) (suc j) h = get-below xs j (omega (arith, h))

-- A channel from which its sender's steps lead to an answer.
unfoldable pub IsAnswered : InFlight → ℕ → Type 0
IsAnswered s c =
    (t : InFlight) × (r : Result Str Str) × Steps s t × (get_elem? t.channels c ≡ some (sent r))

get-set_same :
    (c : ℕ) (p q : Phase) (xs : List Phase)
    → get_elem? xs c ≡ some q
    → get_elem? (set_phase c p xs) c ≡ some p
get-set_same c p q xs h =
    ground (arith, get-set_phase c c p xs, lt→ltb c (length xs) (get-length xs c q h))

phase-IsAnswered :
    (s : InFlight) (c : ℕ) (p : Phase) → get_elem? s.channels c ≡ some p → IsAnswered s c
unfolding IsAnswered send clear_slot
phase-IsAnswered s c (sent r) h = (s, r, done s, h)
phase-IsAnswered s c (cleared r) h = (
  send c r s,
  r,
  then_step s s (send c r s) (done s) (sends s c r h),
  get-set_same c (sent r) (cleared r) s.channels h,
)
phase-IsAnswered s c leading h =
    let t = clear_slot c aborted s in
    let k = get-set_same c (cleared aborted) leading s.channels h in
    (
      send c aborted t,
      aborted,
      then_step s t (send c aborted t) (then_step s s t (done s) (drops s c h))
          (sends t c aborted k),
      get-set_same c (sent aborted) (cleared aborted) t.channels k,
    )

listed_below :
    (n : ℕ) (cs : List ℕ) (i c : ℕ)
    → All (λ d. ltb d n ≡ true) cs
    → get_elem? cs i ≡ some c
    → ltb c n ≡ true
listed_below n [] i c w h = ground arith
listed_below n (d ∷ cs) zero c w h = ground (arith, w.0)
listed_below n (d ∷ cs) (suc i) c w h = listed_below n cs i c w.1 h

-- A step changes no answer that was sent.
Step-sent :
    (s t : InFlight) (c : ℕ) (r : Result Str Str)
    → Step s t
    → get_elem? s.channels c ≡ some (sent r)
    → get_elem? t.channels c ≡ some (sent r)
unfolding claim clear_slot send
Step-sent _ _ c r (claims s) h =
    ground (arith, get-append_one s.channels leading c, get-length s.channels c (sent r) h)
Step-sent _ _ c r (completes s d q k) h = ground (arith, get-set_phase d c (cleared q) s.channels)
Step-sent _ _ c r (drops s d k) h = ground (arith, get-set_phase d c (cleared aborted) s.channels)
Step-sent _ _ c r (sends s d q k) h = ground (arith, get-set_phase d c (sent q) s.channels)

steps-sent :
    (s t : InFlight) (c : ℕ) (r : Result Str Str)
    → Steps s t
    → get_elem? s.channels c ≡ some (sent r)
    → get_elem? t.channels c ≡ some (sent r)
steps-sent _ _ c r (done s) h = h
steps-sent _ _ c r (then_step s t u q k) h = Step-sent t u c r k (steps-sent s t c r q h)

-- In every state that the tasks reach, from the channel of each follower steps lead to an answer,
-- and an answer that was sent stays the same whatever steps come behind it.
pub steps-IsAnswered :
    (s : InFlight)
    → Steps new s
    → ((i c : ℕ) → get_elem? s.watched i ≡ some c → IsAnswered s c)
      × ((t : InFlight) (c : ℕ) (r : Result Str Str)
          → Steps s t
          → get_elem? s.channels c ≡ some (sent r)
          → get_elem? t.channels c ≡ some (sent r))
unfolding IsSound IsWatched
steps-IsAnswered s q =
    let h = steps-Holds IsSound Step-IsSound new s q new-IsSound in
    (
      (λ i c k.
          let (p, e) =
            get-below s.channels c (
              ltb→lt c (length s.channels)
                (listed_below (length s.channels) s.watched i c h.1 k)) in
          phase-IsAnswered s c p e),
      (λ t c r. steps-sent s t c r),
    )
