-- ===== src/Stream/Encoder/Calls.antt =====
-- crates/wiremux/src/stream/encoder.rs: the arguments of a tool call, run by the client's automaton.
use wiremux.Prelude.{
  ℕ, Bool, true, ◌&&◌, ◌||◌, List, [], ◌∷◌, Option, none, some, is_empty, is_some, ◌≡◌, refl, ap,
  arith, ◌∙◌, Bool-cases, Option-cases, inl, inr,
}
use wiremux.Prelude.Text.{Str}
use wiremux.Prelude.NatMap.{NatMap, at, put_at, member, at-put_at}
use wiremux.Json.{Serde}
use wiremux.Stream.Encoder.{
  HeldTool, StreamEncoder, BlockKind, text, thinking, tool, or_nil, tool_enc, tool_enc_at, rest_of,
}
use wiremux.Stream.Encoder.Blocks.{tool_arg_frame, is_tool_open}
use wiremux.Stream.Encoder.Messages.{
  is_open_tool, is_enc, open_tool, arg_delta, arg_at, arg_held, append_custom, is_custom_slot, hold,
}
use wiremux.Stream.Encoder.Protocol.{
  within, tool_use, same_content, advance, run, content_of, signal-tool_arg_frame,
}
use wiremux.Stream.Encoder.Held.{held_is, ordered-update}
use wiremux.Stream.Encoder.Sim.{contents, accounted, known, IsSound}
use wiremux.Stream.Encoder.Steps.{Goes, Goes-still}

-- A state that differs in its custom inputs alone.
pub Goes-custom :
    (s : StreamEncoder) (low : ℕ) (args : NatMap Str)
    → IsSound s low
    → Goes s low (record s { custom_args = args }, [])
unfolding run
Goes-custom s low args i = record {
  state = _;
  sent = [];
  free = low;
  result = refl;
  runs = refl;
  sound = i;
  budget = ground arith;
  starts = refl;
  ends = refl;
  lasts = λ k e. e;
  waits = λ w. w;
}

held-tool-open :
    (block : Option (ℕ × BlockKind)) (k : ℕ) (g h : HeldTool) (m : NatMap HeldTool)
    → at k m ≡ some g
    → (is_tool_open block || is_empty m) ≡ true
    → (is_tool_open block || is_empty (put_at k h m)) ≡ true
unfolding at
held-tool-open block k g h [] e a = ground arith
held-tool-open block k g h ((j, f) ∷ m) e a = ground arith

held-accounted :
    (s : StreamEncoder) (k j n : ℕ) (g h : HeldTool)
    → at k s.held_tools ≡ some g
    → h.enc ≡ g.enc
    → accounted s.closed_tools s.open_block s.held_tools j n ≡ true
    → accounted s.closed_tools s.open_block (put_at k h s.held_tools) j n ≡ true
unfolding accounted held_is
held-accounted s k j n g h e d a = ground (arith, at-put_at k j h s.held_tools)

-- A held call whose texts change.
pub held-Sound :
    (s : StreamEncoder) (low k : ℕ) (g h : HeldTool)
    → IsSound s low
    → at k s.held_tools ≡ some g
    → h.enc ≡ g.enc
    → IsSound (hold s k h) low
unfolding hold
held-Sound s low k g h i e d = record {
  order = ordered-update k g h s.held_tools low s.next_block e d i.order;
  alone = held-tool-open s.open_block k g h s.held_tools e i.alone;
  calls = λ j n c. held-accounted s k j n g h e d (i.calls j n c);
  begun = λ j c. ground (arith, at-put_at k j h s.held_tools, i.begun j);
}

pub held-Goes :
    (s : StreamEncoder) (low k : ℕ) (g h : HeldTool)
    → IsSound s low
    → at k s.held_tools ≡ some g
    → h.enc ≡ g.enc
    → Goes s low (hold s k h, [])
unfolding run hold
held-Goes s low k g h i e d = record {
  state = _;
  sent = [];
  free = low;
  result = refl;
  runs = refl;
  sound = held-Sound s low k g h i e d;
  budget = ground arith;
  starts = refl;
  ends = refl;
  lasts = λ k e. e;
  waits = λ w. w;
}

is_open_tool-contents :
    (o : Option (ℕ × BlockKind)) (enc : ℕ)
    → is_open_tool o enc ≡ true
    → contents o ≡ some (enc, tool_use)
unfolding is_open_tool is_enc open_tool contents content_of
is_open_tool-contents none enc e = ground arith
is_open_tool-contents (some (i, text)) enc e = ground arith
is_open_tool-contents (some (i, thinking)) enc e = ground arith
is_open_tool-contents (some (i, tool)) enc e = ground arith

run-arg :
    (o : Option (ℕ × BlockKind)) (enc low : ℕ) (delta : Str)
    → is_open_tool o enc ≡ true
    → run (within (contents o) low) (tool_arg_frame enc delta ∷ []) ≡ some (within (contents o) low)
unfolding run advance same_content
run-arg o enc low delta e =
    rw (is_open_tool-contents o enc e, signal-tool_arg_frame enc delta) ground arith

module _ (serde : Serde) (custom : Bool) where
  -- An argument of a block that is accounted for.
  arg_held-Goes :
      (s : StreamEncoder) (low enc k : ℕ) (delta : Str) (o : Option HeldTool)
      → IsSound s low
      → at k s.held_tools ≡ o
      → accounted s.closed_tools s.open_block s.held_tools k enc ≡ true
      → Goes s low (arg_held serde custom s enc k delta o)
  unfolding arg_held append_custom accounted held_is
  arg_held-Goes s low enc k delta (some h) i e a =
      elim (Bool-cases (is_custom_slot s h.enc custom)) [
        | inl d ↦ rw d (Goes-custom s low _ i)
        | inr d ↦ rw d (held-Goes s low k h _ i e refl)
      ]
  arg_held-Goes s low enc k delta none i e a = elim (Bool-cases (member enc s.closed_tools)) [
    | inl d ↦ rw d (Goes-still s low i)
    | inr d ↦ rw d (record {
      state = s;
      sent = _;
      free = low;
      result = refl;
      runs = run-arg s.open_block enc low _ (ground arith);
      sound = i;
      budget = ground arith;
      starts = refl;
      ends = refl;
      lasts = λ k e. e;
      waits = λ w. w;
    })
  ]

  arg_at-Goes :
      (s : StreamEncoder) (low enc k : ℕ) (delta : Str)
      → IsSound s low
      → accounted s.closed_tools s.open_block s.held_tools k enc ≡ true
      → Goes s low (arg_at serde custom s enc k delta)
  unfolding arg_at append_custom
  arg_at-Goes s low enc k delta i a =
      elim (Bool-cases (is_open_tool s.open_block enc && is_custom_slot s enc custom)) [
        | inl d ↦ rw d (Goes-custom s low _ i)
        | inr d ↦ rw d (arg_held-Goes s low enc k delta (at k s.held_tools) i refl a)
      ]

  -- The block that `tool_enc` finds for a call that was announced.
  record Found (s : StreamEncoder) (k : ℕ) (e : StreamEncoder × ℕ) : Type 0 where
    slots : NatMap (List ℕ)
    got : List ℕ
    enc : ℕ
    result : e ≡ (record s { tool_slots = slots; tool_got_arg = got }, enc)
    is_known : known s.tool_slots s.last_tool k enc ≡ true
    keeps :
        (j n : ℕ) → known slots s.last_tool j n ≡ true → known s.tool_slots s.last_tool j n ≡ true

  tool_enc_at-Found :
      (s : StreamEncoder) (k l : ℕ) (queue : List ℕ)
      → or_nil (at k s.tool_slots) ≡ queue
      → at k s.last_tool ≡ some l
      → Found s k (tool_enc_at s k queue (some l))
  unfolding tool_enc_at known member rest_of is_enc or_nil
  tool_enc_at-Found s k l [] e d = record {
    slots = _;
    got = _;
    enc = l;
    result = refl;
    is_known = ground arith;
    keeps = λ j n h. ground (arith, at-put_at k j [] s.tool_slots);
  }
  tool_enc_at-Found s k l (n ∷ []) e d = record {
    slots = _;
    got = _;
    enc = n;
    result = refl;
    is_known = ground arith;
    keeps = λ j m h. ground (arith, at-put_at k j (n ∷ []) s.tool_slots);
  }
  tool_enc_at-Found s k l (n ∷ r ∷ rs) e d = record {
    slots = _;
    got = _;
    enc = n;
    result = refl;
    is_known = ground arith;
    keeps = λ j m h. ground (arith, at-put_at k j (r ∷ rs) s.tool_slots);
  }

  tool_enc-Found :
      (s : StreamEncoder) (k : ℕ) → is_some (at k s.last_tool) ≡ true → Found s k (tool_enc s k)
  unfolding tool_enc
  tool_enc-Found s k e = elim (Option-cases (at k s.last_tool)) [
    | inl d ↦ ground arith
    | inr (l, d) ↦ rw d (tool_enc_at-Found s k l (or_nil (at k s.tool_slots)) refl d)
  ]

  -- An argument of a call that was announced.
  pub arg_delta-Goes :
      (s : StreamEncoder) (low k : ℕ) (delta : Str)
      → IsSound s low
      → is_some (at k s.last_tool) ≡ true
      → Goes s low (arg_delta serde custom s k delta)
  unfolding arg_delta
  arg_delta-Goes s low k delta i e = behind (tool_enc-Found s k e)
    where
      behind :
          Found s k (tool_enc s k)
          → Goes s low (arg_at serde custom (tool_enc s k).0 (tool_enc s k).1 k delta)
      behind f =
          let g =
            arg_at-Goes (record s { tool_slots = f.slots; tool_got_arg = f.got }) low f.enc k delta
              (record {
                order = i.order;
                alone = i.alone;
                calls = λ j n h. i.calls j n (f.keeps j n h);
                begun = i.begun;
              })
              (i.calls k f.enc f.is_known) in
          record {
            state = g.state;
            sent = g.sent;
            free = g.free;
            result = ap (λ x. arg_at serde custom x.0 x.1 k delta) f.result ∙ g.result;
            runs = g.runs;
            sound = g.sound;
            budget = g.budget;
            starts = g.starts;
            ends = g.ends;
            lasts = g.lasts;
            waits = g.waits;
          }
