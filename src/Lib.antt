-- ===== src/Lib.antt =====
-- wiremux: a model of the readers, the Messages stream, the policies and the profiles of the crates
-- wiremux and wiremux-auth.
--
-- The program translates a request for a language model from one provider's wire to another's. A
-- request is decoded to an intermediate representation, encoded for the wire of the profile under
-- the profile's policies, and the answer's stream is cut into frames, decoded and encoded again.
-- Profiles come from a catalogue of layers that are merged and resolved, and carry the OAuth data by
-- which refreshed tokens are written back to the store that they came from.
--
-- Which file models which part (paths from the repository's root):
--   Prelude, Json      numbers, lists, texts as their UTF-8 bytes, results, maps in the order of
--                      their keys (Maps) or of u32 keys (NatMap), trimming and ASCII case (Trim),
--                      and the values of serde_json
--   Stream/Sse         crates/wiremux/src/stream/sse.rs: SseFrameReader, by the fields of the
--                      struct; feed takes the reader and the bytes and gives the reader afterwards
--                      and the frames or the error. Sse/Lines and Sse/Chunks hold the proofs on how
--                      a stream is cut, Sse/Bounds those on the caps
--   Stream/EventStream crates/wiremux/src/stream/eventstream.rs: Bytes, Headers, Message and
--                      Reader read, Encode writes, Unwrap has the payloads; HeaderTrip, RoundTrip,
--                      Prefix, Fuel and Chunks hold the proofs
--   Stream/Fields      crates/wiremux/src/stream/mod.rs: what the decoders read of a JSON value
--   Stream/Usage       crates/wiremux/src/stream/usage.rs: the counts of the Messages wire
--   Stream/Messages    crates/wiremux/src/stream/messages.rs: encode, and decode in Messages/Decode. A
--                      frame is its event's name and its JSON, before the JSON is printed. Back has
--                      the forms in which an event comes back, Frames and Trip the proofs
--   Stream/Encoder     crates/wiremux/src/stream/encoder.rs: StreamEncoder at the Messages wire, each
--                      method as a function from the state to the state and the frames. Blocks opens
--                      and closes the content blocks, Messages is push_messages, Finish is
--                      finish_messages, Push is push, which has the raw frames that pass through as
--                      well. Protocol is the client's side, an automaton on the frames alone; Held,
--                      Sim, Steps, Calls, Known, Starts, Events, Answers, Moves, Ends and Refine run
--                      it over what the encoder sends
--   Ir                 crates/wiremux/src/ir/mod.rs: the data types of the representation
--                      (Ir/Sampling), and the loss report (Ir/Loss), whose `record` is `note` here
--   Map                crates/wiremux/src/map/mod.rs: the policies around a wire's encoder
--                      (Map/Policy, with the proofs in Laws, Encode and Prefix) and the cache
--                      breakpoints and the system role's text (Map/PromptCache)
--   Map/Tools          crates/wiremux/src/map/tools.rs: decode_tool and prepare_tools, with the
--                      reports behind each tool; Names has the dotted names, Pieces the forms a
--                      tool may be sent in, as a relation, and Reports, Kept and Laws the proofs
--   Profile            crates/wiremux-auth/src/profile: types.rs (Types), error.rs (Error), the raw
--                      layer of parse.rs (Raw) and its resolution (Resolve), overlay.rs (Overlay),
--                      the edit distance of types.rs behind its suggestions (Kebab);
--                      the variables in a profile's strings, envsubst.rs (Envsubst); the scan of its
--                      keys and values, refuse.rs (Refuse); Overlay/Laws, Resolve/Checks,
--                      Envsubst/Laws and Refuse/Laws hold the proofs
--   Writeback          crates/wiremux-auth/src/writeback.rs: pointer_get and pointer_set, with the
--                      document after the write beside the error, since a refused write leaves the
--                      parents that it made
--   InFlight           crates/wiremux-auth/src/helpers.rs: InFlight as a state and the steps of the
--                      tasks, one for each lock scope and each send, in any order; Single and Answer
--                      hold the proofs
--   CappedBody         crates/wiremux/src/capped_body.rs: the read of a body up to a cap
--   Tests              runs at fixed inputs, and the theorems at inputs that meet their hypotheses
--
-- How they interact: Profile/Resolve takes what Profile/Overlay merges; Map/Policy takes a resolved
-- profile and a request of Ir, and writes its report through Ir/Loss; the frames of both readers have
-- the one type of Stream/Frame. Stream/Encoder takes the events that Stream/Messages decodes, writes
-- its own frames by what Stream/Messages shares with it, and its last one by Stream/Usage.
--
-- Bounds and fuel: usize is 64 bits wide, and the encoder's block numbers are 32, with the saturating
-- addition of the source. The loops of the Event Stream reader run on fuel, the number of bytes that
-- are left, and Stream/EventStream/Fuel has the lemmas that this suffices. Every other loop is
-- structural recursion.
--
-- Parameters: the process's environment is a function from names, and the URL parser one from texts.
-- serde_json's parser and printer are the record Serde. The encoder of a wire behind `encode`
-- (prepare_tools and the encode of chat.rs, messages.rs, responses.rs, gemini.rs or converse.rs) is an
-- argument, and so is the case of a tool's name in Map/Tools, which reads Unicode's tables. The mutex
-- and the watch channel of InFlight and the chunks of a response are taken by what their libraries
-- document: they are the atomic steps and a list.
--
-- Not modelled: the encoders and decoders of requests, the streams of the wires other than Messages,
-- the events that stream/mod.rs lifts from a frame beside the one of its decoder, the proxy,
-- the client, the command line, the token providers and their flows, and the reads of files, of the
-- environment and of the network. The message of an error is kept where the code returns it as data;
-- in the readers it is a constructor of StreamError.
pub mod Prelude
pub mod Json
pub mod CappedBody
pub mod InFlight
pub mod Ir
pub mod Map
pub mod Profile
pub mod Stream
pub mod Writeback
pub mod Tests
