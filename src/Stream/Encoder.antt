-- ===== src/Stream/Encoder.antt =====
-- crates/wiremux/src/stream/encoder.rs: `StreamEncoder` at the Messages wire. The record has the
-- fields that this wire reads or writes; a method `&mut self` returns the new record.
pub mod Blocks
pub mod Messages
pub mod Finish
pub mod Push
pub mod Protocol
pub mod Held
pub mod Sim
pub mod Steps
pub mod Calls
pub mod Known
pub mod Starts
pub mod Events
pub mod Answers
pub mod Moves
pub mod Ends
pub mod Refine
use wiremux.Prelude.{
  ℕ, Bool, true, false, List, [], ◌∷◌, ◌++◌, Option, none, some, if◌then◌else◌, saturating_add32,
  max,
}
use wiremux.Prelude.Text.{Str}
use wiremux.Prelude.NatMap.{NatMap, at, put_at, remove_at, member}
use wiremux.Json.{Value}
use wiremux.Ir.{IrStreamEvent, Usage}

-- The Messages wire opens no block of the source's fourth kind, `CustomTool`.
pub data BlockKind : Type 0 where
  text thinking tool : BlockKind

-- A tool call that was announced while the block of another is open: its block, id, name and arguments.
pub record HeldTool : Type 0 where
  pub enc : ℕ
  pub id : Str
  pub name : Str
  pub args : Str

pub record StreamEncoder : Type 0 where
  pub model : Str
  pub started : Bool
  pub finished : Bool
  pub next_block : ℕ
  pub open_block : Option (ℕ × BlockKind)
  pub finish_reason : Option Str
  pub usage : Option Usage
  pub used_tool : List ℕ
  pub next_tool : ℕ
  pub tool_slots : NatMap (List ℕ)
  pub tool_got_arg : List ℕ
  pub last_tool : NatMap ℕ
  pub tool_ids : NatMap Str
  pub messages_id : Option Str
  pub messages_web_search_requests : Option ℕ
  pub messages_web_fetch_requests : Option ℕ
  pub messages_cache_creation : Option Value
  pub messages_container : Option Value
  pub messages_container_written : Bool
  pub messages_context_management : Option Value
  pub messages_cache_miss : Option Value
  pub service_tier : Option Str
  pub stop_sequence : Option Str
  pub refusal : Str
  pub held_tools : NatMap HeldTool
  pub deferred : List IrStreamEvent
  pub closed_tools : List ℕ
  pub custom_args : NatMap Str

abbrev pub new : StreamEncoder
new = record {
  model = [];
  started = false;
  finished = false;
  next_block = 0;
  open_block = none;
  finish_reason = none;
  usage = none;
  used_tool = [];
  next_tool = 0;
  tool_slots = [];
  tool_got_arg = [];
  last_tool = [];
  tool_ids = [];
  messages_id = none;
  messages_web_search_requests = none;
  messages_web_fetch_requests = none;
  messages_cache_creation = none;
  messages_container = none;
  messages_container_written = false;
  messages_context_management = none;
  messages_cache_miss = none;
  service_tier = none;
  stop_sequence = none;
  refusal = [];
  held_tools = [];
  deferred = [];
  closed_tools = [];
  custom_args = [];
}

unfoldable pub with_model : StreamEncoder → Str → StreamEncoder
with_model s model = record s { model = model }

unfoldable pub or_nil {ℓ} : {A : Type ℓ} → Option (List A) → List A
or_nil none = []
or_nil (some xs) = xs

-- `slots.back()` has had arguments.
unfoldable pub last_got_arg : List ℕ → List ℕ → Bool
last_got_arg got [] = false
last_got_arg got (n ∷ []) = member n got
last_got_arg got (n ∷ m ∷ ns) = last_got_arg got (m ∷ ns)

-- The queue of a call's blocks with a new one at its end.
unfoldable pub push_slot : List ℕ → List ℕ → ℕ → List ℕ
push_slot got slots enc = (if last_got_arg got slots then [] else slots) ++ enc ∷ []

-- `alloc_tool`: the block's number is the state's `next_block`.
unfoldable pub alloc_tool : StreamEncoder → ℕ → StreamEncoder
alloc_tool s ir_index =
    let enc = s.next_block in
    record s {
      next_block = saturating_add32 enc 1;
      used_tool = enc ∷ s.used_tool;
      next_tool = max s.next_tool (saturating_add32 enc 1);
      tool_slots =
          put_at ir_index (push_slot s.tool_got_arg (or_nil (at ir_index s.tool_slots)) enc)
            s.tool_slots;
      last_tool = put_at ir_index enc s.last_tool;
    }

-- `pop_front`, if there is more than one block.
unfoldable pub rest_of : ℕ → List ℕ → List ℕ
rest_of front [] = front ∷ []
rest_of front (n ∷ ns) = n ∷ ns

unfoldable pub tool_enc_at : StreamEncoder → ℕ → List ℕ → Option ℕ → StreamEncoder × ℕ
tool_enc_at s ir_index (front ∷ rest) last = (
  record s {
    tool_got_arg = front ∷ s.tool_got_arg;
    tool_slots = put_at ir_index (rest_of front rest) s.tool_slots;
  },
  front,
)
tool_enc_at s ir_index [] (some last) = (
  record s { tool_got_arg = last ∷ s.tool_got_arg; tool_slots = put_at ir_index [] s.tool_slots },
  last,
)
tool_enc_at s ir_index [] none = (alloc_tool s ir_index, s.next_block)

-- `tool_enc`: the block that an argument of a call belongs to.
unfoldable pub tool_enc : StreamEncoder → ℕ → StreamEncoder × ℕ
tool_enc s ir_index =
    tool_enc_at s ir_index (or_nil (at ir_index s.tool_slots)) (at ir_index s.last_tool)
