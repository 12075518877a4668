-- ===== src/Stream/Encoder/Steps.antt =====
-- crates/wiremux/src/stream/encoder.rs: the steps that open no tool, run by the client's automaton.
use wiremux.Prelude.{
  ℕ, suc, true, List, [], ◌∷◌, ◌++◌, Option, none, some, leb, is_some, all, length, length-append,
  saturating_add32, u32_max, ◌≡◌, refl, ap, arith, ◌∙◌, ◌<◌, ◌≤◌, ◌+◌, Bool-cases, inl, inr,
}
use wiremux.Prelude.Text.{Str}
use wiremux.Prelude.NatMap.{at}
use wiremux.Json.{Serde, Value}
use wiremux.Ir.{IrStreamEvent}
use wiremux.Stream.Fields.{Frame}
use wiremux.Stream.Encoder.{StreamEncoder, BlockKind, text, thinking, tool}
use wiremux.Stream.Encoder.Blocks.{
  Emitted, close_open, block_of, open_new, ensure_block, has_kind, emit_in, open_index,
  tool_block_open,
}
use wiremux.Stream.Encoder.Messages.{emit_image, defer, unless_tool}
use wiremux.Stream.Messages.{block_start, block_delta, block_stop, image_block}
use wiremux.Stream.Encoder.Protocol.{
  within, same_content, signal, deltas, advance, run, run-then, content_of, signal-block_of,
  signal-image, signal-block_stop,
}
use wiremux.Stream.Encoder.Held.{ordered}
use wiremux.Stream.Encoder.Events.{is_plain}
use wiremux.Stream.Encoder.Sim.{contents, accounted, Sound, IsSound, Closing, close_open-Closing}

-- Blocks and deferred events together: one event adds one at most.
abbrev pub total : StreamEncoder → ℕ
total s = s.next_block + length s.deferred

-- A step inside the message: the automaton takes its frames, and the state stays sound.
pub record Goes (s : StreamEncoder) (low : ℕ) (e : Emitted) : Type 0 where
  pub state : StreamEncoder
  pub sent : List Frame
  pub free : ℕ
  pub result : e ≡ (state, sent)
  pub runs :
      run (within (contents s.open_block) low) sent ≡ some (within (contents state.open_block) free)
  pub sound : IsSound state free
  pub budget : total state ≤ suc (total s)
  pub starts : state.started ≡ s.started
  pub ends : state.finished ≡ s.finished
  pub lasts : (k : ℕ) → is_some (at k s.last_tool) ≡ true → is_some (at k state.last_tool) ≡ true
  pub waits : all is_plain s.deferred ≡ true → all is_plain state.deferred ≡ true

pub saturating_add32-suc : (n : ℕ) → n < u32_max → saturating_add32 n 1 ≡ suc n
saturating_add32-suc n h = ground arith

-- No frame, and no change of a block.
pub Goes-still : (s : StreamEncoder) (low : ℕ) → IsSound s low → Goes s low (s, [])
unfolding run
Goes-still s low i = record {
  state = s;
  sent = [];
  free = low;
  result = refl;
  runs = refl;
  sound = i;
  budget = ground arith;
  starts = refl;
  ends = refl;
  lasts = λ k e. e;
  waits = λ w. w;
}

all-append :
    (evs : List IrStreamEvent) (ev : IrStreamEvent)
    → all is_plain evs ≡ true
    → is_plain ev ≡ true
    → all is_plain (evs ++ ev ∷ []) ≡ true
all-append [] ev h p = ground arith
all-append (e ∷ evs) ev h p = ground (arith, all-append evs ev)

pub defer-Goes :
    (s : StreamEncoder) (low : ℕ) (ev : IrStreamEvent)
    → is_plain ev ≡ true
    → IsSound s low
    → Goes s low (defer s ev)
unfolding run defer
defer-Goes s low ev p i = record {
  state = _;
  sent = [];
  free = low;
  result = refl;
  runs = refl;
  sound = i;
  budget = ground (arith, length-append s.deferred (ev ∷ []));
  starts = refl;
  ends = refl;
  lasts = λ k e. e;
  waits = λ w. all-append s.deferred ev w p;
}

-- Behind a close, a state without an open block or a held call is sound.
pub closed-Sound :
    (s : StreamEncoder) (low next : ℕ) (block : Option (ℕ × BlockKind)) (e : Emitted)
    → IsSound s low
    → (c : Closing s low s.next_block e) (free : ℕ) → leb free next ≡ true
    → Sound next block [] c.closed s.tool_slots s.last_tool free
unfolding ordered accounted at
closed-Sound s low next block e i c free h = record {
  order = h;
  alone = ground arith;
  calls = λ k n d. ground (arith, c.covers n k (i.calls k n d));
  begun = λ k d. ground arith;
}

run-delta :
    (i : ℕ) (kind : BlockKind) (low : ℕ) (delta : Value)
    → signal (block_delta i delta) ≡ deltas i (content_of kind)
    → run (within (some (i, content_of kind)) low) (block_delta i delta ∷ [])
      ≡ some (within (some (i, content_of kind)) low)
unfolding run advance same_content content_of
run-delta i text low delta h = rw h ground arith
run-delta i thinking low delta h = rw h ground arith
run-delta i tool low delta h = rw h ground arith

run-open :
    (i low : ℕ) (kind : BlockKind)
    → leb low i ≡ true
    → run (within none low) (block_start i (block_of kind) ∷ [])
      ≡ some (within (some (i, content_of kind)) (suc i))
unfolding run advance
run-open i low kind h = rw (signal-block_of i kind) ground arith

-- A step behind which a block of the kind is open.
record Opens (s : StreamEncoder) (low : ℕ) (kind : BlockKind) (e : Emitted) : Type 0 where
  goes : Goes s low e
  index : ℕ
  opens : goes.state.open_block ≡ some (index, kind)

open_new-Opens :
    (serde : Serde) (s : StreamEncoder) (low : ℕ) (kind : BlockKind)
    → IsSound s low
    → s.next_block < u32_max
    → Opens s low kind (open_new serde s kind)
unfolding open_new contents
open_new-Opens serde s low kind i h = behind (close_open-Closing serde s low s.next_block i.order)
  where
    opened : Emitted → Emitted
    opened x = (
      record x.0 {
        next_block = saturating_add32 x.0.next_block 1;
        open_block = some (x.0.next_block, kind);
      },
      x.1 ++ block_start x.0.next_block (block_of kind) ∷ [],
    )

    behind :
        Closing s low s.next_block (close_open serde s)
        → Opens s low kind (opened (close_open serde s))
    behind c = record {
      goes = record {
        state = _;
        sent = c.sent ++ block_start s.next_block (block_of kind) ∷ [];
        free = suc s.next_block;
        result = ap opened c.result;
        runs = run-then _ _ _ c.sent _ c.runs (run-open s.next_block c.free kind c.bound);
        sound = closed-Sound s low _ _ _ i c (suc s.next_block) (ground arith);
        budget = ground arith;
        starts = refl;
        ends = refl;
        lasts = λ k e. e;
        waits = λ w. w;
      };
      index = s.next_block;
      opens = refl;
    }

has_kind-open :
    (o : Option (ℕ × BlockKind)) (kind : BlockKind)
    → has_kind o kind ≡ true
    → (i : ℕ) × (o ≡ some (i, kind))
unfolding has_kind
has_kind-open none kind e = ground arith
has_kind-open (some (i, text)) text e = (i, refl)
has_kind-open (some (i, thinking)) thinking e = (i, refl)
has_kind-open (some (i, tool)) tool e = (i, refl)
has_kind-open (some (i, text)) thinking e = ground arith
has_kind-open (some (i, text)) tool e = ground arith
has_kind-open (some (i, thinking)) text e = ground arith
has_kind-open (some (i, thinking)) tool e = ground arith
has_kind-open (some (i, tool)) text e = ground arith
has_kind-open (some (i, tool)) thinking e = ground arith

ensure_block-Opens :
    (serde : Serde) (s : StreamEncoder) (low : ℕ) (kind : BlockKind)
    → IsSound s low
    → s.next_block < u32_max
    → Opens s low kind (ensure_block serde s kind)
unfolding ensure_block run
ensure_block-Opens serde s low kind i h = elim (Bool-cases (has_kind s.open_block kind)) [
  | inl d ↦ rw d (still (has_kind-open s.open_block kind d))
  | inr d ↦ rw d (open_new-Opens serde s low kind i h)
]
  where
    still : (j : ℕ) × (s.open_block ≡ some (j, kind)) → Opens s low kind (s, [])
    still (j, d) = record {
      goes = record {
        state = s;
        sent = [];
        free = low;
        result = refl;
        runs = refl;
        sound = i;
        budget = ground arith;
        starts = refl;
        ends = refl;
        lasts = λ k e. e;
        waits = λ w. w;
      };
      index = j;
      opens = d;
    }

-- A delta in a block of its kind.
pub emit_in-Goes :
    (serde : Serde) (s : StreamEncoder) (low : ℕ) (kind : BlockKind) (delta : Value)
    → ((j : ℕ) → signal (block_delta j delta) ≡ deltas j (content_of kind))
    → IsSound s low
    → s.next_block < u32_max
    → Goes s low (emit_in serde s kind delta)
unfolding emit_in contents open_index
emit_in-Goes serde s low kind delta says i h = behind (ensure_block-Opens serde s low kind i h)
  where
    emitted : Emitted → Emitted
    emitted x = (x.0, x.1 ++ block_delta (open_index x.0.open_block) delta ∷ [])

    behind :
        Opens s low kind (ensure_block serde s kind)
        → Goes s low (emitted (ensure_block serde s kind))
    behind o =
        let g = o.goes in
        record {
          state = g.state;
          sent = g.sent ++ block_delta o.index delta ∷ [];
          free = g.free;
          result =
              ap emitted g.result
              ∙ ap (λ b. (g.state, g.sent ++ block_delta (open_index b) delta ∷ [])) o.opens;
          runs =
              run-then _ _ _ g.sent _ g.runs
                (rw (o.opens) (run-delta o.index kind g.free delta (says o.index)));
          sound = g.sound;
          budget = g.budget;
          starts = g.starts;
          ends = g.ends;
          lasts = g.lasts;
          waits = g.waits;
        }

run-image :
    (i low : ℕ) (media_type payload : Str)
    → leb low i ≡ true
    → run (within none low) (block_start i (image_block media_type payload) ∷ block_stop i ∷ [])
      ≡ some (within none (suc i))
unfolding run advance
run-image i low media_type payload h =
    rw (signal-image i media_type payload, signal-block_stop i) ground arith

pub emit_image-Goes :
    (serde : Serde) (s : StreamEncoder) (low : ℕ) (media_type payload : Str)
    → IsSound s low
    → s.next_block < u32_max
    → Goes s low (emit_image serde s media_type payload)
unfolding emit_image contents
emit_image-Goes serde s low media_type payload i h =
    behind (close_open-Closing serde s low s.next_block i.order)
  where
    shown : Emitted → Emitted
    shown x = (
      record x.0 { next_block = saturating_add32 x.0.next_block 1 },
      x.1
          ++ block_start x.0.next_block (image_block media_type payload)
            ∷ block_stop x.0.next_block
            ∷ [],
    )

    behind :
        Closing s low s.next_block (close_open serde s) → Goes s low (shown (close_open serde s))
    behind c = record {
      state = _;
      sent =
          c.sent
          ++ block_start s.next_block (image_block media_type payload)
            ∷ block_stop s.next_block
            ∷ [];
      free = suc s.next_block;
      result = ap shown c.result;
      runs =
          run-then _ _ _ c.sent _ c.runs (run-image s.next_block c.free media_type payload c.bound);
      sound = closed-Sound s low _ _ _ i c (suc s.next_block) (ground arith);
      budget = ground arith;
      starts = refl;
      ends = refl;
      lasts = λ k e. e;
      waits = λ w. w;
    }

-- What waits for the tool's block, or else goes.
pub unless_tool-Goes :
    (s : StreamEncoder) (low : ℕ) (ev : IrStreamEvent) (e : Emitted)
    → is_plain ev ≡ true
    → IsSound s low
    → Goes s low e
    → Goes s low (unless_tool s ev e)
unfolding unless_tool
unless_tool-Goes s low ev e p i g = elim (Bool-cases (tool_block_open s)) [
  | inl d ↦ rw d (defer-Goes s low ev p i)
  | inr d ↦ rw d g
]
