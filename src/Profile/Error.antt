-- ===== src/Profile/Error.antt =====
-- crates/wiremux-auth/src/profile/error.rs: why a profile is refused. A text that the source builds
-- is kept as the fields that it is built from.
use wiremux.Prelude.{ℕ}
use wiremux.Prelude.Text.{Str}

pub data ProfileError : Type 0 where
  parse_error : Str → ProfileError
  -- found; the largest is `schema_version_max`
  schema_version_error : ℕ → ProfileError
  missing_field : Str → ProfileError
  forbidden_key : Str → ProfileError
  -- field, trigger
  interpolation : Str → Str → ProfileError
  -- field, url
  disallowed_url : Str → Str → ProfileError
  native_module : Str → ProfileError
