-- ===== src/Stream/Encoder/Held.antt =====
-- crates/wiremux/src/stream/encoder.rs: the calls that wait behind an open tool, and their flush.
use wiremux.Prelude.{
  ℕ, suc, Bool, true, false, ◌&&◌, ◌||◌, ◌==◌, List, [], ◌∷◌, ◌++◌, Option, none, some, leb,
  is_empty, ◌≡◌, refl, ap, arith, Bool-cases, inl, inr,
}
use wiremux.Prelude.Text.{Str}
use wiremux.Prelude.NatMap.{NatMap, at, put_at, member}
use wiremux.Json.{Serde}
use wiremux.Stream.Fields.{Frame}
use wiremux.Stream.Encoder.{HeldTool, StreamEncoder}
use wiremux.Stream.Encoder.Blocks.{
  sort_held, insert_held, flush_one, flush_each, held_args, take_custom_json, tool_start_frame,
  tool_arg_frame,
}
use wiremux.Stream.Messages.{block_stop}
use wiremux.Stream.Encoder.Protocol.{
  within, tool_use, same_content, advance, run, run-then, signal-tool_start_frame,
  signal-tool_arg_frame, signal-block_stop,
}

-- The blocks of the held calls increase from `low` and are under `next`.
unfoldable pub ordered : ℕ → ℕ → NatMap HeldTool → Bool
ordered low next [] = leb low next
ordered low next ((i, h) ∷ m) = leb low h.enc && ordered (suc h.enc) next m

abbrev pub heads : NatMap HeldTool → List HeldTool
heads [] = []
heads ((i, h) ∷ m) = h ∷ heads m

unfoldable pub held_is : Option HeldTool → ℕ → Bool
held_is none enc = false
held_is (some h) enc = h.enc == enc

insert_held-heads :
    (h : HeldTool) (m : NatMap HeldTool) (next : ℕ)
    → ordered (suc h.enc) next m ≡ true
    → insert_held h (heads m) ≡ h ∷ heads m
unfolding ordered insert_held
insert_held-heads h [] next e = refl
insert_held-heads h ((i, k) ∷ m) next e = ground arith

pub sort_held-heads :
    (m : NatMap HeldTool) (low next : ℕ) → ordered low next m ≡ true → sort_held m ≡ heads m
unfolding ordered sort_held
sort_held-heads [] low next e = refl
sort_held-heads ((i, h) ∷ m) low next e =
    ground (arith, sort_held-heads m (suc h.enc) next, insert_held-heads h m next)

pub ordered-low :
    (m : NatMap HeldTool) (low next : ℕ) → ordered low next m ≡ true → leb low next ≡ true
unfolding ordered
ordered-low [] low next e = e
ordered-low ((i, h) ∷ m) low next e = ground (arith, ordered-low m (suc h.enc) next)

-- A new call is held behind the others, at the next block.
pub ordered-put_at :
    (k : ℕ) (h : HeldTool) (m : NatMap HeldTool) (low next : ℕ)
    → at k m ≡ none
    → h.enc ≡ next
    → ordered low next m ≡ true
    → ordered low (suc next) (put_at k h m) ≡ true
unfolding ordered at put_at
ordered-put_at k h [] low next e d o = ground arith
ordered-put_at k h ((i, g) ∷ m) low next e d o =
    ground (arith, ordered-put_at k h m (suc g.enc) next)

-- A held call keeps its block.
pub ordered-update :
    (k : ℕ) (g h : HeldTool) (m : NatMap HeldTool) (low next : ℕ)
    → at k m ≡ some g
    → h.enc ≡ g.enc
    → ordered low next m ≡ true
    → ordered low next (put_at k h m) ≡ true
unfolding ordered at put_at
ordered-update k g h [] low next e d o = ground arith
ordered-update k g h ((i, f) ∷ m) low next e d o =
    ground (arith, ordered-update k g h m (suc f.enc) next)

run-arg :
    (enc low : ℕ) (delta : Str)
    → run (within (some (enc, tool_use)) low) (tool_arg_frame enc delta ∷ [])
      ≡ some (within (some (enc, tool_use)) low)
unfolding run advance same_content
run-arg enc low delta = rw (signal-tool_arg_frame enc delta) ground arith

-- The frames of one held call are a whole block.
run-held :
    (h : HeldTool) (given : Option Str) (low : ℕ)
    → leb low h.enc ≡ true
    → run
        (within none low)
        (tool_start_frame h.enc h.id h.name ∷ (held_args h given ++ block_stop h.enc ∷ []))
      ≡ some (within none (suc h.enc))
unfolding run advance same_content held_args
run-held h (some given) low e =
    rw
      (
        signal-tool_start_frame h.enc h.id h.name,
        signal-tool_arg_frame h.enc given,
        signal-block_stop h.enc,
      )
      ground arith
run-held h none low e = elim (Bool-cases (is_empty h.args)) [
  | inl d ↦ rw (d, signal-tool_start_frame h.enc h.id h.name, signal-block_stop h.enc) ground arith
  | inr d ↦
      rw
        (
          d,
          signal-tool_start_frame h.enc h.id h.name,
          signal-tool_arg_frame h.enc h.args,
          signal-block_stop h.enc,
        )
        ground arith
]

-- A flush of held calls: which state fields it changes, a run of the automaton over its frames, and
-- that every held block is closed then.
pub record Flush (s : StreamEncoder) (held : NatMap HeldTool) (low next : ℕ)
    (e : StreamEncoder × List Frame) : Type 0 where
  pub closed : List ℕ
  pub args : NatMap Str
  pub sent : List Frame
  pub free : ℕ
  pub result : e ≡ (record s { closed_tools = closed; custom_args = args }, sent)
  pub runs : run (within none low) sent ≡ some (within none free)
  pub bound : leb free next ≡ true
  pub covers :
      (n k : ℕ) → (member n s.closed_tools || held_is (at k held) n) ≡ true → member n closed ≡ true

pub flush_each-Flush :
    (serde : Serde) (s : StreamEncoder) (m : NatMap HeldTool) (low next : ℕ)
    → ordered low next m ≡ true
    → Flush s m low next (flush_each serde s (heads m))
unfolding flush_each flush_one take_custom_json ordered run member at held_is
flush_each-Flush serde s [] low next o = record {
  closed = s.closed_tools;
  args = s.custom_args;
  sent = [];
  free = low;
  result = refl;
  runs = refl;
  bound = o;
  covers = λ n k e. ground arith;
}
flush_each-Flush serde s ((i, h) ∷ m) low next o =
    flush-cons (flush_each-Flush serde (flush_one serde s h).0 m (suc h.enc) next (ground arith))
  where
    flush-cons :
        Flush
          (flush_one serde s h).0
          m
          (suc h.enc)
          next
          (flush_each serde (flush_one serde s h).0 (heads m))
        → Flush s ((i, h) ∷ m) low next (flush_each serde s (h ∷ heads m))
    flush-cons f = record {
      closed = f.closed;
      args = f.args;
      sent = (flush_one serde s h).1 ++ f.sent;
      free = f.free;
      result = ap (λ x. (x.0, (flush_one serde s h).1 ++ x.1)) f.result;
      runs = run-then _ _ _ (flush_one serde s h).1 f.sent (run-held h _ low (ground arith)) f.runs;
      bound = f.bound;
      covers = λ n k e. f.covers n k (ground arith);
    }
