-- ===== src/Stream/Encoder/Known.antt =====
-- crates/wiremux/src/stream/encoder.rs: the maps of a tool call that gets a block.
use wiremux.Prelude.{
  ℕ, suc, Bool, true, ◌&&◌, ◌||◌, ◌==◌, List, [], ◌∷◌, ◌++◌, Option, none, some, leb, is_empty,
  is_some, is_none, saturating_add32, u32_max, ◌≡◌, refl, arith, ◌<◌, Bool-cases, inl, inr,
}
use wiremux.Prelude.Text.{Str}
use wiremux.Prelude.NatMap.{NatMap, at, put_at, remove_at, member, at-put_at, at-remove_at}
use wiremux.Stream.Encoder.{
  HeldTool, StreamEncoder, BlockKind, tool, or_nil, alloc_tool, push_slot, last_got_arg,
}
use wiremux.Stream.Encoder.Blocks.{tool_start_frame, note_custom_slot, is_tool_open}
use wiremux.Stream.Encoder.Messages.{is_open_tool, is_enc, open_tool, hold, is_other_tool}
use wiremux.Stream.Encoder.Protocol.{within, tool_use, advance, run, signal-tool_start_frame}
use wiremux.Stream.Encoder.Held.{ordered, held_is, ordered-put_at}
use wiremux.Stream.Encoder.Sim.{accounted, known, Sound, IsSound}
use wiremux.Stream.Encoder.Steps.{saturating_add32-suc}

pub note_custom_slot-form :
    (s : StreamEncoder) (enc : ℕ) (custom : Bool)
    → (args : NatMap Str) × (note_custom_slot s enc custom ≡ record s { custom_args = args })
unfolding note_custom_slot
note_custom_slot-form s enc custom = elim (Bool-cases (custom && is_none (at enc s.custom_args))) [
  | inl d ↦ (put_at enc [] s.custom_args, rw d refl)
  | inr d ↦ (s.custom_args, rw d refl)
]

pub member-append :
    (xs : List ℕ) (n m : ℕ) → member m (xs ++ n ∷ []) ≡ true → (member m xs || (n == m)) ≡ true
unfolding member
member-append [] n m h = ground arith
member-append (x ∷ xs) n m h = ground (arith, member-append xs n m)

pub member-push_slot :
    (got slots : List ℕ) (n m : ℕ)
    → member m (push_slot got slots n) ≡ true
    → (member m slots || (n == m)) ≡ true
unfolding push_slot member
member-push_slot got slots n m h = elim (Bool-cases (last_got_arg got slots)) [
  | inl d ↦ ground (arith, member-append [] n m (rw d at h))
  | inr d ↦ member-append slots n m (rw d at h)
]

-- The maps of a new block `n` of the call `k`: what they know is old or new.
pub known-push_slot :
    (slots : NatMap (List ℕ)) (last : NatMap ℕ) (got : List ℕ) (k n j m : ℕ)
    → known (put_at k (push_slot got (or_nil (at k slots)) n) slots) (put_at k n last) j m ≡ true
    → (known slots last j m || ((k == j) && (n == m))) ≡ true
unfolding known is_enc or_nil
known-push_slot slots last got k n j m h = ground (
  arith,
  at-put_at k j (push_slot got (or_nil (at k slots)) n) slots,
  at-put_at k j n last,
  member-push_slot got (or_nil (at k slots)) n m,
)

pub known-remove_at :
    (slots : NatMap (List ℕ)) (last : NatMap ℕ) (k j m : ℕ)
    → known (remove_at k slots) last j m ≡ true
    → known slots last j m ≡ true
unfolding known or_nil member
known-remove_at slots last k j m h = ground (arith, at-remove_at k j slots)

pub run-begin :
    (enc low : ℕ) (id name : Str)
    → leb low enc ≡ true
    → run (within none low) (tool_start_frame enc id name ∷ [])
      ≡ some (within (some (enc, tool_use)) (suc enc))
unfolding run advance
run-begin enc low id name h = rw (signal-tool_start_frame enc id name) ground arith

-- Behind a close and the start of a block `n` of the call `k`.
pub begin-Sound :
    (n k : ℕ) (got closed : List ℕ) (slots : NatMap (List ℕ)) (last : NatMap ℕ)
    → n < u32_max
    → ((j m : ℕ) → known slots last j m ≡ true → member m closed ≡ true)
    → Sound
        (saturating_add32 n 1)
        (some (n, tool))
        []
        closed
        (put_at k (push_slot got (or_nil (at k slots)) n) slots)
        (put_at k n last)
        (suc n)
unfolding ordered accounted is_tool_open is_open_tool open_tool is_enc at
begin-Sound n k got closed slots last h covers = record {
  order = ground arith;
  alone = ground arith;
  calls = λ j m d. ground (arith, known-push_slot slots last got k n j m d, covers j m);
  begun = λ j d. ground arith;
}

pub still-known :
    (k n j : ℕ) (last : NatMap ℕ)
    → is_some (at j last) ≡ true
    → is_some (at j (put_at k n last)) ≡ true
still-known k n j last h = ground (arith, at-put_at k j n last)

pub now-known : (k n : ℕ) (last : NatMap ℕ) → is_some (at k (put_at k n last)) ≡ true
now-known k n last = ground (arith, at-put_at k k n last)

pub other-alone :
    (o : Option (ℕ × BlockKind)) (n : ℕ) (m : NatMap HeldTool)
    → is_other_tool o n ≡ true
    → (is_tool_open o || is_empty m) ≡ true
unfolding is_other_tool is_tool_open
other-alone none n m h = ground arith
other-alone (some (e, kind)) n m h = ground arith

pub hold-accounted :
    (s : StreamEncoder) (k j m : ℕ) (h : HeldTool) {low : ℕ}
    → at k s.held_tools ≡ none
    → h.enc ≡ s.next_block
    → IsSound s low
    → (known s.tool_slots s.last_tool j m || ((k == j) && (s.next_block == m))) ≡ true
    → accounted s.closed_tools s.open_block (put_at k h s.held_tools) j m ≡ true
unfolding accounted held_is
hold-accounted s k j m h e d i c = ground (arith, at-put_at k j h s.held_tools, i.calls j m)

-- A new block `n` of the call `k` that is held behind the open tool.
pub hold-Sound :
    (s : StreamEncoder) (low k : ℕ) (h : HeldTool)
    → IsSound s low
    → s.next_block < u32_max
    → at k s.held_tools ≡ none
    → h.enc ≡ s.next_block
    → is_other_tool s.open_block s.next_block ≡ true
    → IsSound (hold (alloc_tool s k) k h) low
unfolding hold alloc_tool
hold-Sound s low k h i bound e d other = record {
  order =
      rw (saturating_add32-suc s.next_block bound)
        (ordered-put_at k h s.held_tools low s.next_block e d i.order);
  alone = other-alone s.open_block s.next_block (put_at k h s.held_tools) other;
  calls = λ j m c.
      hold-accounted s k j m h e d i
        (known-push_slot s.tool_slots s.last_tool s.tool_got_arg k s.next_block j m c);
  begun = λ j c.
      ground
        (arith, at-put_at k j h s.held_tools, at-put_at k j s.next_block s.last_tool, i.begun j);
}
