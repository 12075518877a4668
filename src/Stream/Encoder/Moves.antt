-- ===== src/Stream/Encoder/Moves.antt =====
-- crates/wiremux/src/stream/encoder.rs: one push and the last frames, run by the client's automaton.
use wiremux.Prelude.{
  ℕ, suc, Bool, true, false, List, [], ◌∷◌, ◌++◌, Option, none, some, if◌then◌else◌, is_some, all,
  u32_max, ◌≡◌, refl, ap, arith, ◌∙◌, ◌<◌, ◌≤◌,
}
use wiremux.Prelude.Results.{Result, ok}
use wiremux.Prelude.NatMap.{at}
use wiremux.Json.{Serde}
use wiremux.Ir.{IrStreamEvent}
use wiremux.Map.Error.{MapError}
use wiremux.Stream.Fields.{Frame}
use wiremux.Stream.Encoder.{StreamEncoder}
use wiremux.Stream.Encoder.Blocks.{Emitted, messages_start_frame}
use wiremux.Stream.Encoder.Messages.{
  is_custom, custom_tool_as_function, note_event, is_quiet, respond, behind, open_at, push_noted,
  push_messages,
}
use wiremux.Stream.Encoder.Protocol.{
  Phase, before, within, run, run-then, advance, signal-messages_start_frame,
}
use wiremux.Stream.Encoder.Sim.{contents, IsSound}
use wiremux.Stream.Encoder.Steps.{total}
use wiremux.Stream.Encoder.Events.{
  announces, needs, is_answered, is_plain, is_own, announces-is_quiet,
}
use wiremux.Stream.Encoder.Answers.{Answers, has_last, respond-Answers}

-- Where the client stands with a state that is not finished.
unfoldable pub phase : StreamEncoder → ℕ → Phase
phase s low = if s.started then within (contents s.open_block) low else before

pub record Live (s : StreamEncoder) (low : ℕ) : Type 0 where
  pub sound : IsSound s low
  pub fresh : s.started ≡ false → (s.open_block ≡ none) × (low ≡ 0)
  pub waiting : all is_plain s.deferred ≡ true

-- A push that the client takes.
pub record Moves (s : StreamEncoder) (low : ℕ) (told : Option ℕ) (r : Result MapError Emitted)
    : Type 0 where
  pub state : StreamEncoder
  pub sent : List Frame
  pub free : ℕ
  pub result : r ≡ ok (state, sent)
  pub runs : run (phase s low) sent ≡ some (phase state free)
  pub live : Live state free
  pub budget : total state ≤ suc (total s)
  pub tells : has_last state told ≡ true
  pub lasts : (k : ℕ) → is_some (at k s.last_tool) ≡ true → is_some (at k state.last_tool) ≡ true
  pub ends : state.finished ≡ s.finished
  pub stays : s.started ≡ true → state.started ≡ true

pub phase-started :
    (s : StreamEncoder) (low : ℕ)
    → s.started ≡ true
    → phase s low ≡ within (contents s.open_block) low
unfolding phase
phase-started s low d = rw d refl

phase-fresh : (s : StreamEncoder) (low : ℕ) → s.started ≡ false → phase s low ≡ before
unfolding phase
phase-fresh s low d = rw d refl

-- The start frame of a message with no block yet.
pub run-start :
    (s t : StreamEncoder) (low : ℕ)
    → s.started ≡ false
    → s.open_block ≡ none
    → run (phase s low) (messages_start_frame t ∷ []) ≡ some (within (contents s.open_block) 0)
unfolding run advance contents
run-start s t low st e = rw (phase-fresh s low st, e, signal-messages_start_frame t) refl

-- What `respond` answers in a message that is open, behind the frames that opened it.
answer-Moves :
    (s t : StreamEncoder) (low from : ℕ) (told : Option ℕ) (fs : List Frame)
    (r : Result MapError Emitted)
    → t.started ≡ true
    → t.finished ≡ s.finished
    → all is_plain t.deferred ≡ true
    → total t ≡ total s
    → t.last_tool ≡ s.last_tool
    → run (phase s low) fs ≡ some (within (contents t.open_block) from)
    → Answers t from told r
    → Moves s low told (behind fs r)
unfolding behind
answer-Moves s t low from told fs r st fin wait tot last front a =
    let g = a.goes in
    record {
      state = g.state;
      sent = fs ++ g.sent;
      free = g.free;
      result = ap (behind fs) (a.is_ok ∙ ap ok g.result);
      runs =
          rw (phase-started g.state g.free (g.starts ∙ st)) (run-then _ _ _ fs g.sent front g.runs);
      live = record {
        sound = g.sound;
        fresh = λ e. ground (arith, g.starts ∙ st);
        waiting = g.waits wait;
      };
      budget = ground (arith, g.budget);
      tells = a.tells;
      lasts = λ k e. g.lasts k (rw last e);
      ends = g.ends ∙ fin;
      stays = λ e. g.starts ∙ st;
    }

has_last-same :
    (s t : StreamEncoder) (o : Option ℕ)
    → t.last_tool ≡ s.last_tool
    → has_last s o ≡ true
    → has_last t o ≡ true
unfolding has_last
has_last-same s t none e h = h
has_last-same s t (some k) e h = rw e h

-- The answer to an event in a message that is open already.
push-started :
    (serde : Serde) (s : StreamEncoder) (low : ℕ) (ev : IrStreamEvent) (custom : Bool)
    → Live s low
    → is_answered ev ≡ true
    → has_last s (needs ev) ≡ true
    → s.next_block < u32_max
    → s.started ≡ true
    → Moves s low (announces ev) (behind [] (respond serde custom (note_event s ev) ev))
unfolding note_event run
push-started serde s low ev custom l own known h st =
    answer-Moves s (note_event s ev) low low (announces ev) [] _ st refl l.waiting refl refl
      (rw (phase-started s low st) refl)
      (respond-Answers serde custom (note_event s ev) low ev own
        (has_last-same s (note_event s ev) (needs ev) refl known) l.sound h)

push_noted-Moves :
    (serde : Serde) (s : StreamEncoder) (low : ℕ) (ev : IrStreamEvent) (custom started quiet : Bool)
    → Live s low
    → is_answered ev ≡ true
    → has_last s (needs ev) ≡ true
    → s.next_block < u32_max
    → s.started ≡ started
    → is_quiet ev ≡ quiet
    → Moves s low (announces ev) (push_noted serde custom started quiet (note_event s ev) ev)
unfolding push_noted open_at note_event run contents has_last phase
push_noted-Moves serde s low ev custom true quiet l own known h st q =
    push-started serde s low ev custom l own known h st
push_noted-Moves serde s low ev custom false true l own known h st q = record {
  state = note_event s ev;
  sent = [];
  free = low;
  result = refl;
  runs = refl;
  live = record { sound = l.sound; fresh = l.fresh; waiting = l.waiting };
  budget = ground arith;
  tells = rw (announces-is_quiet ev q) refl;
  lasts = λ k e. e;
  ends = refl;
  stays = λ e. e;
}
push_noted-Moves serde s low ev custom false false l own known h st q =
    let noted = note_event s ev in
    let t = (open_at false noted).0 in
    let (nothing_open, low0) = l.fresh st in
    answer-Moves s t low 0 (announces ev) (messages_start_frame noted ∷ []) _ refl refl l.waiting
      refl refl (run-start s noted low st nothing_open)
      (respond-Answers serde custom t 0 ev own (has_last-same s t (needs ev) refl known)
        (rw low0 at l.sound) h)

pub push_messages-Moves :
    (serde : Serde) (s : StreamEncoder) (low : ℕ) (ev : IrStreamEvent)
    → Live s low
    → is_own ev ≡ true
    → has_last s (needs (custom_tool_as_function ev)) ≡ true
    → s.next_block < u32_max
    → Moves s low (announces (custom_tool_as_function ev)) (push_messages serde s ev)
unfolding push_messages note_event is_own
push_messages-Moves serde s low given l own known h =
    push_noted-Moves serde s low (custom_tool_as_function given) (is_custom given) s.started _ l own
      known h refl refl
