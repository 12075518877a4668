-- ===== src/Tests/Environment.antt =====
-- A profile's strings in an environment without variables, and a profile that is scanned.
use wiremux.Prelude.{true, [], ◌∷◌, none, some, if◌then◌else◌, ◌≡◌, refl}
use wiremux.Prelude.Text.{str, str_eq, str_lt, strip_prefix}
use wiremux.Prelude.Trim.{
  trim, trim_start, trim_end, is_blank, to_ascii_lowercase, eq_ignore_ascii_case,
}
use wiremux.Json.{Value, string, json_object, json_array, fields_of, insert}
use wiremux.Profile.Envsubst.{Env, walk}
use wiremux.Profile.Refuse.{
  UrlParser, is_forbidden_key, is_url_field, before_query, ends_with, is_native_module_path,
  has_bang, has_dollar_paren, refuse_interpolation, url_allowed, check_url, scan_string, scan_value,
  scan,
}
use wiremux.Profile.Refuse.Laws.{is_clean, scan-is_clean}
use wiremux.Profile.Envsubst.Laws.{is_filled, opens, walk-is_filled}

abbrev nothing_set : Env
nothing_set = λ name. none

abbrev two_hosts : Value
two_hosts = json_object (
    (str "base_url", string (str "https://${REGION}.example.com"))
    ∷ (str "hosts", json_array (string (str "{env:HOST}") ∷ string (str "localhost") ∷ []))
    ∷ [])

walk-is_filled_example :
    (is_filled (walk nothing_set two_hosts) ≡ true)
    × (walk nothing_set (string (str "localhost")) ≡ string (str "localhost"))
unfolding opens
walk-is_filled_example = walk-is_filled nothing_set two_hosts (str "localhost") refl

-- A parser that knows one URL.
abbrev one_url : UrlParser
one_url s =
    if str_eq s (str "https://api")
    then some (record { scheme = str "https"; host_str = some (str "api") })
    else none

abbrev one_host : Value
one_host =
    json_object ((str "base_url", string (str "https://api")) ∷ (str "id", string (str "x")) ∷ [])

scan-is_clean_example : is_clean one_url [] one_host ≡ true
unfolding scan scan_value json_object fields_of insert str_eq str_lt is_forbidden_key
    eq_ignore_ascii_case to_ascii_lowercase scan_string is_native_module_path trim trim_start
    trim_end is_blank before_query ends_with is_url_field check_url url_allowed refuse_interpolation
    has_bang has_dollar_paren strip_prefix
scan-is_clean_example = scan-is_clean one_url one_host refl
