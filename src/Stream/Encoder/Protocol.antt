-- ===== src/Stream/Encoder/Protocol.antt =====
-- The stream that a client of the Messages wire reads: an automaton on the frames of
-- crates/wiremux/src/stream/encoder.rs, apart from the encoder's state.
use wiremux.Prelude.{
  ℕ, suc, Bool, true, false, ◌&&◌, ◌||◌, ◌==◌, List, [], ◌∷◌, ◌++◌, Option, none, some,
  if◌then◌else◌, leb, ◌≡◌, refl, ◌∙◌, arith,
}
use wiremux.Prelude.Text.{Str, str, str_eq, str_lt}
use wiremux.Json.{Value, get, as_u64, as_str, lookup, insert, fields_of, json_object}
use wiremux.Stream.Fields.{Frame, bind_option, get2}
use wiremux.Stream.Messages.{
  block_start, block_delta, block_stop, tool_use_block, image_block, citation_delta, typed_delta,
  text_value, input_json_value, stop_frame,
}
use wiremux.Stream.Encoder.{
  StreamEncoder, BlockKind, text as enc_text, thinking as enc_thinking, tool as enc_tool,
}
use wiremux.Stream.Encoder.Finish.{final_delta}
use wiremux.Stream.Encoder.Blocks.{block_of, messages_start_frame, tool_start_frame, tool_arg_frame}

pub data Content : Type 0 where
  text thinking tool_use image : Content

-- What a frame says to the reader: its event, with the block's index and content.
pub data Signal : Type 0 where
  message_start message_delta message_stop foreign : Signal
  starts deltas : ℕ → Content → Signal
  stops : ℕ → Signal

-- The content of a block by its type.
block_content : Str → Option Content
block_content name =
    if str_eq name (str "text")
    then some text
    else if str_eq name (str "thinking")
    then some thinking
    else if str_eq name (str "tool_use")
    then some tool_use
    else if str_eq name (str "image")
    then some image
    else none

-- The content of the block that a delta of a type belongs in.
delta_content : Str → Option Content
delta_content name =
    if str_eq name (str "text_delta") || str_eq name (str "citations_delta")
    then some text
    else if str_eq name (str "thinking_delta") || str_eq name (str "signature_delta")
    then some thinking
    else if str_eq name (str "input_json_delta")
    then some tool_use
    else none

type_at : Str → Value → Option Str
type_at key value = bind_option (get2 key (str "type") value) as_str

index_at : Value → Option ℕ
index_at value = bind_option (get (str "index") value) as_u64

about : (ℕ → Content → Signal) → Option ℕ → Option Content → Signal
about f (some i) (some c) = f i c
about f _ _ = foreign

stop_of : Option ℕ → Signal
stop_of none = foreign
stop_of (some i) = stops i

unfoldable pub signal : Frame → Signal
unfolding block_content delta_content type_at index_at about stop_of
signal (event, value) =
    if str_eq event (str "message_start")
    then message_start
    else if str_eq event (str "content_block_start")
    then about starts (index_at value)
        (bind_option (type_at (str "content_block") value) block_content)
    else if str_eq event (str "content_block_delta")
    then about deltas (index_at value) (bind_option (type_at (str "delta") value) delta_content)
    else if str_eq event (str "content_block_stop")
    then stop_of (index_at value)
    else if str_eq event (str "message_delta")
    then message_delta
    else if str_eq event (str "message_stop")
    then message_stop
    else foreign

-- Before the message, in it with the block that is open and the least index that is still free,
-- behind its last delta, and over.
pub data Phase : Type 0 where
  before closing over : Phase
  within : Option (ℕ × Content) → ℕ → Phase

unfoldable pub same_content : Content → Content → Bool
same_content text text = true
same_content thinking thinking = true
same_content tool_use tool_use = true
same_content image image = true
same_content _ _ = false

-- One block is open at a time, the indices of the blocks increase, a delta and a stop belong to the
-- open block, and the message ends with no block open.
unfoldable pub advance : Phase → Signal → Option Phase
advance before message_start = some (within none 0)
advance (within none low) (starts i c) =
    if leb low i then some (within (some (i, c)) (suc i)) else none
advance (within (some (j, c)) low) (deltas i d) =
    if (i == j) && same_content c d then some (within (some (j, c)) low) else none
advance (within (some (j, c)) low) (stops i) = if i == j then some (within none low) else none
advance (within none low) message_delta = some closing
advance closing message_stop = some over
advance _ _ = none

unfoldable pub run : Phase → List Frame → Option Phase
run p [] = some p
run p (f ∷ fs) = bind_option (advance p (signal f)) (λ q. run q fs)

run-append-bound :
    (o : Option Phase) (q : Phase) (fs gs : List Frame)
    → ((r : Phase) → run r fs ≡ some q → run r (fs ++ gs) ≡ run q gs)
    → bind_option o (λ r. run r fs) ≡ some q
    → bind_option o (λ r. run r (fs ++ gs)) ≡ run q gs
run-append-bound none q fs gs ih e = ground arith
run-append-bound (some r) q fs gs ih e = ih r e

pub run-append :
    (p q : Phase) (fs gs : List Frame) → run p fs ≡ some q → run p (fs ++ gs) ≡ run q gs
unfolding run
run-append p q [] gs e = ground arith
run-append p q (f ∷ fs) gs e =
    run-append-bound (advance p (signal f)) q fs gs (λ r. run-append r q fs gs) e

-- Two runs, one behind the other.
pub run-then :
    (p q r : Phase) (fs gs : List Frame)
    → run p fs ≡ some q
    → run q gs ≡ some r
    → run p (fs ++ gs) ≡ some r
run-then p q r fs gs e d = run-append p q fs gs e ∙ d

-- What the frames of the encoder say.
pub signal-tool_start_frame :
    (i : ℕ) (id name : Str) → signal (tool_start_frame i id name) ≡ starts i tool_use
unfolding signal block_start tool_use_block get get2 lookup insert fields_of json_object str_eq
    str_lt block_content type_at index_at about
signal-tool_start_frame i id name = refl

pub signal-image : (i : ℕ) (m d : Str) → signal (block_start i (image_block m d)) ≡ starts i image
unfolding signal block_start image_block get get2 lookup insert fields_of json_object str_eq str_lt
    block_content type_at index_at about
signal-image i m d = refl

pub signal-block_stop : (i : ℕ) → signal (block_stop i) ≡ stops i
unfolding signal block_stop get lookup insert fields_of json_object str_eq str_lt index_at stop_of
signal-block_stop i = refl

pub signal-tool_arg_frame :
    (i : ℕ) (delta : Str) → signal (tool_arg_frame i delta) ≡ deltas i tool_use
unfolding signal block_delta typed_delta get get2 lookup insert fields_of json_object str_eq str_lt
    delta_content type_at index_at about
signal-tool_arg_frame i delta = refl

pub signal-text : (i : ℕ) (words : Str) → signal (block_delta i (text_value words)) ≡ deltas i text
unfolding signal block_delta typed_delta get get2 lookup insert fields_of json_object str_eq str_lt
    delta_content type_at index_at about
signal-text i words = refl

pub signal-citation :
    (i : ℕ) (c : Value) → signal (block_delta i (citation_delta c)) ≡ deltas i text
unfolding signal block_delta citation_delta get get2 lookup insert fields_of json_object str_eq
    str_lt delta_content type_at index_at about
signal-citation i c = refl

pub signal-thinking :
    (i : ℕ) (words : Str)
    → signal (block_delta i (typed_delta (str "thinking_delta") (str "thinking") words))
      ≡ deltas i thinking
unfolding signal block_delta typed_delta get get2 lookup insert fields_of json_object str_eq str_lt
    delta_content type_at index_at about
signal-thinking i words = refl

pub signal-signature :
    (i : ℕ) (words : Str)
    → signal (block_delta i (typed_delta (str "signature_delta") (str "signature") words))
      ≡ deltas i thinking
unfolding signal block_delta typed_delta get get2 lookup insert fields_of json_object str_eq str_lt
    delta_content type_at index_at about
signal-signature i words = refl

-- The content of the encoder's block.
unfoldable pub content_of : BlockKind → Content
content_of enc_text = text
content_of enc_thinking = thinking
content_of enc_tool = tool_use

pub signal-block_of :
    (i : ℕ) (kind : BlockKind) → signal (block_start i (block_of kind)) ≡ starts i (content_of kind)
unfolding signal block_start block_of content_of tool_use_block get get2 lookup insert fields_of
    json_object str_eq str_lt block_content type_at index_at about
signal-block_of i enc_text = refl
signal-block_of i enc_thinking = refl
signal-block_of i enc_tool = refl

pub signal-stop_frame : signal stop_frame ≡ message_stop
unfolding signal str_eq
signal-stop_frame = refl

pub signal-messages_start_frame :
    (s : StreamEncoder) → signal (messages_start_frame s) ≡ message_start
unfolding signal str_eq messages_start_frame
signal-messages_start_frame s = refl

pub signal-final_delta : (s : StreamEncoder) → signal (final_delta s) ≡ message_delta
unfolding signal str_eq final_delta wiremux.Stream.Messages.message_delta
signal-final_delta s = refl
