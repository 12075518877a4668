-- ===== src/Ir/Loss.antt =====
-- crates/wiremux/src/ir/mod.rs: what a map reports to have lost.
use wiremux.Prelude.{Bool, true, false, List, [], ◌∷◌, ◌++◌, if◌then◌else◌}
use wiremux.Prelude.Text.{Str, str}

pub data LossAction : Type 0 where
  preserve degrade drop hard_error : LossAction

pub record LossEvent : Type 0 where
  pub path : Str
  pub action : LossAction
  pub detail : Str

pub record LossReport : Type 0 where
  pub events : List LossEvent

abbrev pub no_loss : LossReport
no_loss = record { events = [] }

-- `LossReport::record`, whose name is taken here.
unfoldable pub note : LossReport → Str → LossAction → Str → LossReport
note r path action detail = record {
  events = r.events ++ record { path = path; action = action; detail = detail } ∷ [];
}

abbrev pub is_preserve : LossAction → Bool
is_preserve preserve = true
is_preserve _ = false

lossy_events : List LossEvent → List LossEvent
lossy_events [] = []
lossy_events (e ∷ es) = if is_preserve e.action then lossy_events es else e ∷ lossy_events es

unfoldable pub lossy : LossReport → List LossEvent
unfolding lossy_events
lossy r = lossy_events r.events

action_word : LossAction → Str
action_word preserve = str "preserve"
action_word degrade = str "degrade"
action_word drop = str "drop"
action_word hard_error = str "harderror"

-- `Display` of an event: the line that `wiremux map` prints.
unfoldable pub display : LossEvent → Str
unfolding action_word
display e = action_word e.action ++ (str " " ++ (e.path ++ (str ": " ++ e.detail)))
