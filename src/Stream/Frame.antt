-- ===== src/Stream/Frame.antt =====
-- crates/wiremux/src/stream/mod.rs: `RawSse`, and the error texts that the two readers return.
use wiremux.Prelude.{Option, ℕ}
use wiremux.Prelude.Text.{Str}

pub record RawSse : Type 0 where
  pub event : Option Str
  pub payload : Str

-- One constructor for each error text of `sse.rs` and `eventstream.rs`.
pub data StreamError : Type 0 where
  sse_line_exceeds sse_data_exceeds : StreamError
  buffer_exceeds prelude_crc_mismatch message_crc_mismatch headers_overflow : StreamError
  name_truncated name_not_utf8 value_truncated value_not_utf8 : StreamError
  total_length_invalid unknown_header_type trailing_bytes : ℕ → StreamError
  -- No error of the program: the loop of a model has no fuel left.
  out_of_fuel : StreamError
