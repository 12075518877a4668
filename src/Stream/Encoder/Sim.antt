-- ===== src/Stream/Encoder/Sim.antt =====
-- crates/wiremux/src/stream/encoder.rs: what holds of the encoder's blocks between two events, and the
-- close of the open block.
use wiremux.Prelude.{
  ℕ, Bool, true, ◌||◌, List, [], ◌∷◌, ◌++◌, Option, none, some, leb, is_empty, is_some, ◌≡◌, refl,
  ap, arith, ◌∙◌,
}
use wiremux.Prelude.Text.{Str}
use wiremux.Prelude.NatMap.{NatMap, at, member}
use wiremux.Json.{Serde}
use wiremux.Stream.Fields.{Frame}
use wiremux.Stream.Encoder.{HeldTool, StreamEncoder, BlockKind, text, thinking, tool, or_nil}
use wiremux.Stream.Encoder.Blocks.{
  close_open, close_at, close_block, flush_held_tools, custom_arg, take_custom_json, is_tool_open,
}
use wiremux.Stream.Encoder.Messages.{is_open_tool, is_enc, open_tool}
use wiremux.Stream.Messages.{block_stop}
use wiremux.Stream.Encoder.Protocol.{
  Content, within, same_content, advance, run, run-then, content_of, signal-tool_arg_frame,
  signal-block_stop,
}
use wiremux.Stream.Encoder.Held.{ordered, held_is, sort_held-heads, Flush, flush_each-Flush}

unfoldable pub contents : Option (ℕ × BlockKind) → Option (ℕ × Content)
contents none = none
contents (some (i, kind)) = some (i, content_of kind)

-- A block of the call `k`: closed, the open tool, or held.
unfoldable pub accounted : List ℕ → Option (ℕ × BlockKind) → NatMap HeldTool → ℕ → ℕ → Bool
accounted closed block held k n = member n closed || (is_open_tool block n || held_is (at k held) n)

-- A block that an argument of the call `k` can be for.
unfoldable pub known : NatMap (List ℕ) → NatMap ℕ → ℕ → ℕ → Bool
known slots last k n = member n (or_nil (at k slots)) || is_enc (at k last) n

-- `low` is the least index that the client still takes.
pub record Sound (next : ℕ) (block : Option (ℕ × BlockKind)) (held : NatMap HeldTool)
    (closed : List ℕ) (slots : NatMap (List ℕ)) (last : NatMap ℕ) (low : ℕ) : Type 0 where
  pub order : ordered low next held ≡ true
  pub alone : (is_tool_open block || is_empty held) ≡ true
  pub calls : (k n : ℕ) → known slots last k n ≡ true → accounted closed block held k n ≡ true
  pub begun : (k : ℕ) → is_some (at k held) ≡ true → is_some (at k last) ≡ true

abbrev pub IsSound : StreamEncoder → ℕ → Type 0
IsSound s low =
    Sound s.next_block s.open_block s.held_tools s.closed_tools s.tool_slots s.last_tool low

-- A close: the state fields that it changes, the automaton's run over its frames, and that every block
-- is closed then.
pub record Closing (s : StreamEncoder) (low next : ℕ) (e : StreamEncoder × List Frame)
    : Type 0 where
  pub closed : List ℕ
  pub args : NatMap Str
  pub sent : List Frame
  pub free : ℕ
  pub result : e ≡ (
    record s { open_block = none; held_tools = []; closed_tools = closed; custom_args = args },
    sent,
  )
  pub runs : run (within (contents s.open_block) low) sent ≡ some (within none free)
  pub bound : leb free next ≡ true
  pub covers :
      (n k : ℕ)
      → accounted s.closed_tools s.open_block s.held_tools k n ≡ true
      → member n closed ≡ true

flush_held_tools-Flush :
    (serde : Serde) (s : StreamEncoder) (low next : ℕ)
    → ordered low next s.held_tools ≡ true
    → Flush (record s { held_tools = [] }) s.held_tools low next (flush_held_tools serde s)
unfolding flush_held_tools
flush_held_tools-Flush serde s low next o =
    rw (sort_held-heads s.held_tools low next o)
      (flush_each-Flush serde (record s { held_tools = [] }) s.held_tools low next o)

-- The frames of the open block's close.
record Stop (s : StreamEncoder) (i : ℕ) (kind : BlockKind) (low : ℕ)
    (e : StreamEncoder × List Frame) : Type 0 where
  args : NatMap Str
  sent : List Frame
  result : e ≡ (record s { custom_args = args }, sent)
  runs : run (within (some (i, content_of kind)) low) sent ≡ some (within none low)

run-stop :
    (i : ℕ) (c : Content) (low : ℕ)
    → run (within (some (i, c)) low) (block_stop i ∷ []) ≡ some (within none low)
unfolding run advance
run-stop i c low = rw (signal-block_stop i) ground arith

run-custom :
    (i : ℕ) (o : Option Str) (low : ℕ)
    → run (within (some (i, content_of tool)) low) (custom_arg i o ++ block_stop i ∷ [])
      ≡ some (within none low)
unfolding run advance same_content custom_arg content_of
run-custom i none low = run-stop i (content_of tool) low
run-custom i (some given) low = rw (signal-tool_arg_frame i given, signal-block_stop i) ground arith

close_block-Stop :
    (serde : Serde) (s : StreamEncoder) (i : ℕ) (kind : BlockKind) (low : ℕ)
    → Stop s i kind low (close_block serde s i kind)
unfolding close_block take_custom_json
close_block-Stop serde s i text low = record {
  args = s.custom_args;
  sent = _;
  result = refl;
  runs = run-stop i (content_of text) low;
}
close_block-Stop serde s i thinking low = record {
  args = s.custom_args;
  sent = _;
  result = refl;
  runs = run-stop i (content_of thinking) low;
}
close_block-Stop serde s i tool low = record {
  args = _;
  sent = _;
  result = refl;
  runs = run-custom i _ low;
}

pub close_at-Closing :
    (serde : Serde) (s : StreamEncoder) (o : Option (ℕ × BlockKind)) (low next : ℕ)
    → ordered low next s.held_tools ≡ true
    → Closing
        (record s { open_block = o })
        low
        next
        (close_at serde (record s { open_block = o }) o)
unfolding close_at accounted is_open_tool open_tool is_enc contents member
close_at-Closing serde s none low next o =
    let f = flush_held_tools-Flush serde (record s { open_block = none }) low next o in
    record {
      closed = f.closed;
      args = f.args;
      sent = f.sent;
      free = f.free;
      result = f.result;
      runs = f.runs;
      bound = f.bound;
      covers = λ n k e. f.covers n k (ground arith);
    }
close_at-Closing serde s (some (i, kind)) low next o = behind (close_block-Stop serde _ i kind low)
  where
    s0 : StreamEncoder
    s0 = record s { open_block = none; closed_tools = i ∷ s.closed_tools }

    behind :
        Stop s0 i kind low (close_block serde s0 i kind)
        → Closing
            (record s { open_block = some (i, kind) })
            low
            next
            (close_at serde (record s { open_block = some (i, kind) }) (some (i, kind)))
    behind c =
        let f = flush_held_tools-Flush serde (record s0 { custom_args = c.args }) low next o in
        record {
          closed = f.closed;
          args = f.args;
          sent = c.sent ++ f.sent;
          free = f.free;
          result =
              ap (λ x. ((flush_held_tools serde x.0).0, x.1 ++ (flush_held_tools serde x.0).1))
                c.result
              ∙ ap (λ y. (y.0, c.sent ++ y.1)) f.result;
          runs = run-then _ _ _ c.sent f.sent c.runs f.runs;
          bound = f.bound;
          covers = λ n k e. f.covers n k (ground arith);
        }

pub close_open-Closing :
    (serde : Serde) (s : StreamEncoder) (low next : ℕ)
    → ordered low next s.held_tools ≡ true
    → Closing s low next (close_open serde s)
unfolding close_open
close_open-Closing serde s low next o = close_at-Closing serde s s.open_block low next o
