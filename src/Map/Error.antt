-- ===== src/Map/Error.antt =====
-- crates/wiremux/src/map/mod.rs: why a request is not mapped.
use wiremux.Prelude.Text.{Str}

pub data MapError : Type 0 where
  json : Str → MapError
  -- path, detail
  hard : Str → Str → MapError
  invalid : Str → MapError
