-- ===== src/Stream/Encoder/Starts.antt =====
-- crates/wiremux/src/stream/encoder.rs: the start of a tool call, run by the client's automaton.
use wiremux.Prelude.{
  ℕ, suc, Bool, true, ◌||◌, [], ◌∷◌, ◌++◌, Option, none, some, if◌then◌else◌, is_empty, is_some,
  u32_max, ◌≡◌, refl, ap, arith, ◌∙◌, ◌<◌, Bool-cases, inl, inr,
}
use wiremux.Prelude.Text.{Str, str_eq}
use wiremux.Prelude.NatMap.{NatMap, at, remove_at}
use wiremux.Json.{Serde}
use wiremux.Stream.Encoder.{HeldTool, StreamEncoder, alloc_tool}
use wiremux.Stream.Encoder.Blocks.{Emitted, close_open, tool_start_frame, note_custom_slot}
use wiremux.Stream.Encoder.Messages.{
  is_enc, open_tool, is_last, same_open, note_open, begin_tool, fill, hold, is_other_tool,
  start_again, start_new, start_held, start_tool, open_id,
}
use wiremux.Stream.Encoder.Protocol.{run, run-then, content_of}
use wiremux.Stream.Encoder.Sim.{contents, IsSound, Closing, close_open-Closing}
use wiremux.Stream.Encoder.Steps.{Goes}
use wiremux.Stream.Encoder.Calls.{held-Sound}
use wiremux.Stream.Encoder.Known.{
  note_custom_slot-form, known-remove_at, run-begin, begin-Sound, still-known, now-known,
  hold-Sound,
}

-- The start of a call: a step behind which the call has a block.
pub record Starts (s : StreamEncoder) (low k : ℕ) (e : Emitted) : Type 0 where
  pub goes : Goes s low e
  pub announced : is_some (at k goes.state.last_tool) ≡ true

module _ (serde : Serde) (custom : Bool) where
  start_again-Starts :
      (s : StreamEncoder) (low k : ℕ) (id name : Str)
      → IsSound s low
      → s.next_block < u32_max
      → Starts s low k (start_again serde custom s k id name)
  unfolding start_again alloc_tool begin_tool contents content_of
  start_again-Starts s low k id name i h =
      behind (close_open-Closing serde s low s.next_block i.order)
    where
      fresh : Emitted → StreamEncoder
      fresh x = alloc_tool (record x.0 { tool_slots = remove_at k x.0.tool_slots }) k

      again : Emitted → Emitted
      again x =
          let (s3, gs) =
            begin_tool (note_custom_slot (fresh x) x.0.next_block custom) x.0.next_block id name in
          (s3, x.1 ++ gs)

      behind :
          Closing s low s.next_block (close_open serde s)
          → Starts s low k (again (close_open serde s))
      behind c =
          let n = s.next_block in
          let (args, form) =
            note_custom_slot-form
              (fresh (
                record s {
                  open_block = none;
                  held_tools = [];
                  closed_tools = c.closed;
                  custom_args = c.args;
                },
                c.sent,
              ))
              n custom in
          record {
            goes = record {
              state = _;
              sent = c.sent ++ tool_start_frame n id name ∷ [];
              free = suc n;
              result =
                  ap again c.result
                  ∙ ap
                      (λ x. ((begin_tool x n id name).0, c.sent ++ tool_start_frame n id name ∷ []))
                      form;
              runs = run-then _ _ _ c.sent _ c.runs (run-begin n c.free id name c.bound);
              sound =
                  begin-Sound n k s.tool_got_arg c.closed (remove_at k s.tool_slots) s.last_tool h
                    (λ j m d.
                      c.covers m j
                        (i.calls j m (known-remove_at s.tool_slots s.last_tool k j m d)));
              budget = ground arith;
              starts = refl;
              ends = refl;
              lasts = λ j. still-known k n j s.last_tool;
              waits = λ w. w;
            };
            announced = now-known k n s.last_tool;
          }

  start_new-Starts :
      (s : StreamEncoder) (low k : ℕ) (id name : Str)
      → IsSound s low
      → s.next_block < u32_max
      → at k s.held_tools ≡ none
      → Starts s low k (start_new serde custom s k id name)
  unfolding start_new alloc_tool begin_tool contents content_of hold run
  start_new-Starts s low k id name i h e =
      let (args, form) = note_custom_slot-form (alloc_tool s k) s.next_block custom in
      Starts-at _ _ (ap on_state form) (on_state-Starts args)
    where
      n : ℕ
      n = s.next_block

      on_state : StreamEncoder → Emitted
      on_state x =
          if is_other_tool s.open_block n
          then (hold x k (record { enc = n; id = id; name = name; args = [] }), [])
          else let (s3, fs) = close_open serde x in
            let (s4, gs) = begin_tool s3 n id name in (s4, fs ++ gs)

      opened : Emitted → Emitted
      opened x = let (s4, gs) = begin_tool x.0 n id name in (s4, x.1 ++ gs)

      Starts-at : (e e' : Emitted) → e ≡ e' → Starts s low k e' → Starts s low k e
      Starts-at e e' q g = rw q g

      behind :
          (args : NatMap Str)
          → Closing
              (record (alloc_tool s k) { custom_args = args })
              low
              n
              (close_open serde (record (alloc_tool s k) { custom_args = args }))
          → Starts s low k
              (opened (close_open serde (record (alloc_tool s k) { custom_args = args })))
      behind args c = record {
        goes = record {
          state = _;
          sent = c.sent ++ tool_start_frame n id name ∷ [];
          free = suc n;
          result = ap opened c.result;
          runs = run-then _ _ _ c.sent _ c.runs (run-begin n c.free id name c.bound);
          sound =
              begin-Sound n k s.tool_got_arg c.closed s.tool_slots s.last_tool h
                (λ j m d. c.covers m j (i.calls j m d));
          budget = ground arith;
          starts = refl;
          ends = refl;
          lasts = λ j. still-known k n j s.last_tool;
          waits = λ w. w;
        };
        announced = now-known k n s.last_tool;
      }

      on_state-Starts :
          (args : NatMap Str)
          → Starts s low k (on_state (record (alloc_tool s k) { custom_args = args }))
      on_state-Starts args = elim (Bool-cases (is_other_tool s.open_block n)) [
        | inr d ↦ rw d (behind args (close_open-Closing serde _ low n i.order))
        | inl d ↦ rw d (record {
          goes = record {
            state = _;
            sent = [];
            free = low;
            result = refl;
            runs = refl;
            sound = hold-Sound s low k _ i h e refl d;
            budget = ground arith;
            starts = refl;
            ends = refl;
            lasts = λ j. still-known k n j s.last_tool;
            waits = λ w. w;
          };
          announced = now-known k n s.last_tool;
        })
      ]

  -- A repeated start: the custom input at most is new.
  note_open-form :
      (s : StreamEncoder) (o : Option ℕ)
      → (args : NatMap Str) × (note_open s o custom ≡ record s { custom_args = args })
  unfolding note_open
  note_open-form s none = (s.custom_args, refl)
  note_open-form s (some enc) = note_custom_slot-form s enc custom

  note_open-Starts :
      (s : StreamEncoder) (low k : ℕ)
      → IsSound s low
      → same_open s k ≡ true
      → Starts s low k (note_open s (open_tool s.open_block) custom, [])
  unfolding run same_open is_last is_enc
  note_open-Starts s low k i e =
      let (args, form) = note_open-form s (open_tool s.open_block) in
      record {
        goes = record {
          state = record s { custom_args = args };
          sent = [];
          free = low;
          result = ap (λ x. (x, [])) form;
          runs = refl;
          sound = i;
          budget = ground arith;
          starts = refl;
          ends = refl;
          lasts = λ j d. d;
          waits = λ w. w;
        };
        announced = last-some (open_tool s.open_block) (at k s.last_tool) e;
      }
    where
      last-some : (o l : Option ℕ) → is_last o l ≡ true → is_some l ≡ true
      last-some none l d = ground arith
      last-some (some n) none d = ground arith
      last-some (some n) (some m) d = refl

  start_held-Starts :
      (s : StreamEncoder) (low k : ℕ) (id name : Str) (o : Option HeldTool)
      → IsSound s low
      → s.next_block < u32_max
      → at k s.held_tools ≡ o
      → Starts s low k (start_held serde custom s k id name o)
  unfolding run start_held hold
  start_held-Starts s low k id name none i h e = start_new-Starts s low k id name i h e
  start_held-Starts s low k id name (some g) i h e =
      let filled = record g { id = fill g.id id; name = fill g.name name } in
      let (args, form) = note_custom_slot-form (hold s k filled) g.enc custom in
      record {
        goes = record {
          state = record (hold s k filled) { custom_args = args };
          sent = [];
          free = low;
          result = ap (λ x. (x, [])) form;
          runs = refl;
          sound = held-Sound s low k g filled i e refl;
          budget = ground arith;
          starts = refl;
          ends = refl;
          lasts = λ j d. d;
          waits = λ w. w;
        };
        announced = i.begun k (rw e refl);
      }

  pub start_tool-Starts :
      (s : StreamEncoder) (low k : ℕ) (id name : Str)
      → IsSound s low
      → s.next_block < u32_max
      → Starts s low k (start_tool serde custom s k id name)
  unfolding start_tool
  start_tool-Starts s low k id name i h = elim (Bool-cases (same_open s k)) [
    | inr d ↦ rw d (start_held-Starts s low k id name (at k s.held_tools) i h refl)
    | inl d ↦ elim (Bool-cases (is_empty id || str_eq (open_id s) id)) [
      | inl same ↦ rw (d, same) (note_open-Starts s low k i d)
      | inr other ↦ rw (d, other) (start_again-Starts s low k id name i h)
    ]
  ]
