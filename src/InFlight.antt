-- ===== src/InFlight.antt =====
-- crates/wiremux-auth/src/helpers.rs: `InFlight`, the slot by which tasks in parallel share one refresh.
-- Each lock scope and each send is one atomic step; the channels are numbered as they are made.
pub mod Single
pub mod Answer
use wiremux.Prelude.{ℕ, zero, suc, List, [], ◌∷◌, ◌++◌, Option, none, some, ◌≡◌, length, get_elem?}
use wiremux.Prelude.Results.{Result, ok, err}
use wiremux.Prelude.Text.{Str, str}

-- A channel by what its leader has done: its refresh runs, it has cleared the slot and not yet sent
-- what it shares, or it has sent it.
pub data Phase : Type 0 where
  leading : Phase
  cleared sent : Result Str Str → Phase

-- The slot, every channel's phase, and the channels that the followers watch.
pub record InFlight : Type 0 where
  pub in_flight_slot : Option ℕ
  pub channels : List Phase
  pub watched : List ℕ

abbrev pub new : InFlight
new = record { in_flight_slot = none; channels = []; watched = [] }

pub data RefreshRole : Type 0 where
  leader follower : ℕ → RefreshRole

-- `InFlight::claim`.
unfoldable pub claim : InFlight → RefreshRole × InFlight
claim s = elim s.in_flight_slot [
  | some c ↦ (follower c, record s { watched = c ∷ s.watched })
  | none ↦ (
    leader (length s.channels),
    record s { in_flight_slot = some (length s.channels); channels = s.channels ++ leading ∷ [] },
  )
]

unfoldable pub set_phase : ℕ → Phase → List Phase → List Phase
set_phase i p [] = []
set_phase zero p (x ∷ xs) = p ∷ xs
set_phase (suc i) p (x ∷ xs) = x ∷ set_phase i p xs

-- `clear_slot`, the first step of `complete` and of the drop of a leader that has not finished.
unfoldable pub clear_slot : ℕ → Result Str Str → InFlight → InFlight
clear_slot c shared s = record s {
  in_flight_slot = none;
  channels = set_phase c (cleared shared) s.channels;
}

-- The send behind it.
unfoldable pub send : ℕ → Result Str Str → InFlight → InFlight
send c shared s = record s { channels = set_phase c (sent shared) s.channels }

-- What a leader shares that is dropped before it completes.
abbrev pub aborted : Result Str Str
aborted = err (str "token refresh aborted")

-- The steps of the tasks: a leader completes with any result, or is dropped.
pub data Step : InFlight → InFlight → Type 0 where
  claims : (s : InFlight) → Step s (claim s).1
  completes :
      (s : InFlight) (c : ℕ) (shared : Result Str Str)
      → get_elem? s.channels c ≡ some leading
      → Step s (clear_slot c shared s)
  drops :
      (s : InFlight) (c : ℕ)
      → get_elem? s.channels c ≡ some leading
      → Step s (clear_slot c aborted s)
  sends :
      (s : InFlight) (c : ℕ) (shared : Result Str Str)
      → get_elem? s.channels c ≡ some (cleared shared)
      → Step s (send c shared s)

pub data Steps : InFlight → InFlight → Type 0 where
  done : (s : InFlight) → Steps s s
  then_step : (s t u : InFlight) → Steps s t → Step t u → Steps s u
