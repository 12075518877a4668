-- ===== src/Stream/EventStream/Unwrap.antt =====
-- crates/wiremux/src/stream/eventstream.rs: `unwrap_event_payload`, the payload of a message to be
-- encoded.
use wiremux.Prelude.{not, ◌&&◌, ◌||◌, none, some, ◌==◌, if◌then◌else◌, length, is_some}
use wiremux.Prelude.Text.{Bytes, Str, str, str_eq}
use wiremux.Json.{Value, object, number, Number, Fields, Serde, lookup, insert, entries}

-- `unwrap_event_payload`, with `ensure_block_index`, at a parsed payload.
ensure_block_index : Str → Value → Value
ensure_block_index event_type (object fs) =
    if (str_eq event_type (str "contentBlockDelta")
        || str_eq event_type (str "contentBlockStart")
        || str_eq event_type (str "contentBlockStop"))
      && not (is_some (lookup (str "contentBlockIndex") fs))
    then object (insert (str "contentBlockIndex") (number (Number.pos_int 0)) fs)
    else object fs
ensure_block_index event_type value = value

module _ (serde : Serde) where
  unwrap_object : Str → Str → Fields → Bytes
  unwrap_object event_type text fs = elim (lookup event_type fs) [
    | none ↦ serde.to_string (ensure_block_index event_type (object fs))
    | some inner ↦
        if not (length (entries fs) == 1)
        then text
        else serde.to_string (ensure_block_index event_type inner)
  ]

  pub unwrap_event_payload : Str → Str → Bytes
  unwrap_event_payload event_type text = elim (serde.from_slice text) [
    | none ↦ text
    | some value ↦ elim value [ object fs ↦ unwrap_object event_type text fs | _ ↦ text ]
  ]
