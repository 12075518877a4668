-- ===== src/Profile/Refuse.antt =====
-- crates/wiremux-auth/src/profile/refuse.rs: the scan of a profile's document for keys and values that
-- would run code, and for bad URLs. The library's URL parser is an argument.
pub mod Laws
use wiremux.Prelude.{
  ℕ, zero, suc, Bool, true, false, not, ◌&&◌, ◌||◌, ◌==◌, List, [], ◌∷◌, ◌++◌, Option, none, some,
  if◌then◌else◌, is_empty, is_some, leb, all, any,
}
use wiremux.Prelude.Results.{Result, ok, err}
use wiremux.Prelude.Text.{Str, str, str_eq, strip_prefix, split_once, decimal}
use wiremux.Prelude.Trim.{trim, trim_start, to_ascii_lowercase, eq_ignore_ascii_case}
use wiremux.Json.{
  Value, null, bool, number, string, array, object, Items, nil, cons, Fields, end, field,
}
use wiremux.Profile.Error.{
  ProfileError, forbidden_key, interpolation, disallowed_url, native_module,
}
use wiremux.Profile.Resolve.{◌>>=◌}

-- What `url::Url::parse` gives: the scheme and `host_str`.
pub record Url : Type 0 where
  pub scheme : Str
  pub host_str : Option Str

abbrev pub UrlParser : Type 0
UrlParser = Str → Option Url

abbrev forbidden_keys : List Str
forbidden_keys =
    str "fn"
    ∷ str "function"
    ∷ str "js"
    ∷ str "javascript"
    ∷ str "lua"
    ∷ str "script"
    ∷ str "command"
    ∷ str "apply"
    ∷ str "normalize"
    ∷ []

unfoldable pub is_forbidden_key : Str → Bool
is_forbidden_key k = any (eq_ignore_ascii_case k) forbidden_keys

unfoldable pub is_hint_path : Str → Bool
is_hint_path path = any (str_eq path) (
    str "display_name"
    ∷ str "displayName"
    ∷ str "oauth.setup_token_hint"
    ∷ str "oauth.setupTokenHint"
    ∷ [])

abbrev url_fields : List Str
url_fields =
    str "base_url"
    ∷ str "baseUrl"
    ∷ str "token_url"
    ∷ str "tokenUrl"
    ∷ str "token_url_fallback"
    ∷ str "tokenUrlFallback"
    ∷ str "authorize_url"
    ∷ str "authorizeUrl"
    ∷ str "device_auth_url"
    ∷ str "deviceAuthUrl"
    ∷ str "redirect_uri"
    ∷ str "redirectUri"
    ∷ str "chat_path"
    ∷ str "chatPath"
    ∷ str "messages_path"
    ∷ str "messagesPath"
    ∷ str "responses_path"
    ∷ str "responsesPath"
    ∷ str "gemini_path"
    ∷ str "geminiPath"
    ∷ str "converse_path"
    ∷ str "conversePath"
    ∷ []

unfoldable pub is_url_field : Str → Bool
is_url_field key = any (str_eq key) url_fields

unfoldable pub is_letter : ℕ → Bool
is_letter c = (leb 65 c && leb c 90) || (leb 97 c && leb c 122)

unfoldable pub scheme_of : Str → Option Str
scheme_of s = elim (split_once 58 s) [
  | none ↦ none
  | some (scheme, rest) ↦
      (if is_empty scheme || not (all is_letter scheme) then none else some scheme)
]

-- `strip_suffix`, as the prefix of the text read from its end.
unfoldable pub ends_with : Str → Str → Bool
ends_with suffix [] = is_empty suffix
ends_with suffix (c ∷ cs) = str_eq suffix (c ∷ cs) || ends_with suffix cs

without_last : Str → Str
without_last [] = []
without_last (c ∷ []) = []
without_last (c ∷ d ∷ cs) = c ∷ without_last (d ∷ cs)

-- The host of an IPv6 address without its brackets.
unfoldable pub bare_host : Str → Str
unfolding without_last
bare_host host = elim (strip_prefix (str "[") host) [
  | some inner ↦ (if ends_with (str "]") inner then without_last inner else host)
  | none ↦ host
]

unfoldable pub loopback_host : Url → Bool
loopback_host parsed = elim parsed.host_str [
  | none ↦ false
  | some given ↦
      let host = bare_host given in
      eq_ignore_ascii_case host (str "localhost")
      || (eq_ignore_ascii_case host (str "localhost.")
          || (str_eq host (str "127.0.0.1") || str_eq host (str "::1")))
]

unfoldable pub has_dollar_paren : Str → Bool
has_dollar_paren [] = false
has_dollar_paren (c ∷ []) = false
has_dollar_paren (c ∷ d ∷ cs) =
    if c == 36 && d == 40 then any (λ x. x == 41) cs else has_dollar_paren (d ∷ cs)

-- The text in front of the first `?` or `#`.
unfoldable pub before_query : Str → Str
before_query [] = []
before_query (c ∷ cs) = if c == 63 || c == 35 then [] else c ∷ before_query cs

unfoldable pub is_native_module_path : Str → Bool
is_native_module_path s =
    let lower = to_ascii_lowercase (trim (before_query (trim s))) in
    any (λ suffix. ends_with suffix lower)
      (str ".wasm" ∷ str ".dylib" ∷ str ".so" ∷ str ".dll" ∷ [])

-- A `!` in front, behind white space.
unfoldable pub has_bang : Str → Bool
has_bang s = is_some (strip_prefix (str "!") (trim_start s))

unfoldable pub refuse_interpolation : Str → Str → Result ProfileError (Unit {0})
refuse_interpolation s path =
    if has_bang s
    then err (interpolation path (str "!"))
    else if has_dollar_paren s
    then err (interpolation path (str "$(...)"))
    else if any (λ c. c == 96) s && not (is_hint_path path)
    then err (interpolation path (str "backticks"))
    else ok tt

module _ (parse : UrlParser) where
  unfoldable pub is_loopback_http : Str → Bool
  is_loopback_http url = elim (parse (trim url)) [
    | none ↦ false
    | some parsed ↦ eq_ignore_ascii_case parsed.scheme (str "http") && loopback_host parsed
  ]

  -- A URL that does not parse, by the scheme that it seems to have.
  unfoldable pub unparsed_allowed : Str → Bool
  unparsed_allowed s = elim (scheme_of s) [
    | none ↦ true
    | some scheme ↦
        let lower = to_ascii_lowercase scheme in
        str_eq lower (str "https") || (str_eq lower (str "http") && is_loopback_http s)
  ]

  unfoldable pub url_allowed : Str → Bool
  url_allowed s = elim (parse s) [
    | some parsed ↦
        eq_ignore_ascii_case parsed.scheme (str "https")
        || (eq_ignore_ascii_case parsed.scheme (str "http") && loopback_host parsed)
    | none ↦ unparsed_allowed s
  ]

  unfoldable pub check_url : Str → Str → Result ProfileError (Unit {0})
  check_url path raw = if url_allowed (trim raw) then ok tt else err (disallowed_url path raw)

  unfoldable pub scan_string : Str → Str → Str → Result ProfileError (Unit {0})
  scan_string s key path =
      if is_native_module_path s
      then err (native_module path)
      else (if is_url_field key then check_url path s else ok tt)
        >>= (λ u. refuse_interpolation s path)

unfoldable pub child_path : Str → Str → Str
child_path path k = if is_empty path then k else path ++ (str "." ++ k)

-- The key of a value outside every object is the empty text, as `key.unwrap_or("")` reads it.
unfoldable mutual
  pub scan_value : UrlParser → Value → Str → Str → Result ProfileError (Unit {0})
  scan_value parse (object fs) key path = scan_fields parse fs path
  scan_value parse (array vs) key path = scan_items parse vs key path 0
  scan_value parse (string s) key path = scan_string parse s key path
  scan_value parse null key path = ok tt
  scan_value parse (bool b) key path = ok tt
  scan_value parse (number n) key path = ok tt

  pub scan_items : UrlParser → Items → Str → Str → ℕ → Result ProfileError (Unit {0})
  scan_items parse nil key path i = ok tt
  scan_items parse (cons v vs) key path i =
      scan_value parse v key (path ++ (str "[" ++ (decimal i ++ str "]")))
      >>= (λ u. scan_items parse vs key path (suc i))

  pub scan_fields : UrlParser → Fields → Str → Result ProfileError (Unit {0})
  scan_fields parse end path = ok tt
  scan_fields parse (field k v fs) path =
      (if is_forbidden_key k
        then err (forbidden_key k)
        else scan_value parse v k (child_path path k))
      >>= (λ u. scan_fields parse fs path)

unfoldable pub scan : UrlParser → Value → Result ProfileError (Unit {0})
scan parse value = scan_value parse value [] []
