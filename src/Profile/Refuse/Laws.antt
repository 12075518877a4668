-- ===== src/Profile/Refuse/Laws.antt =====
-- crates/wiremux-auth/src/profile/refuse.rs: what a document that the scan lets through does not hold.
use wiremux.Prelude.{
  ℕ, suc, Bool, true, false, not, ◌&&◌, ◌||◌, [], ◌++◌, if◌then◌else◌, ◌≡◌, refl, ap, arith,
}
use wiremux.Prelude.Results.{Result, ok, err}
use wiremux.Prelude.Text.{Str, str, decimal}
use wiremux.Prelude.Trim.{trim}
use wiremux.Json.{
  Value, null, bool, number, string, array, object, Items, nil, cons, Fields, end, field,
}
use wiremux.Profile.Error.{ProfileError, forbidden_key}
use wiremux.Profile.Resolve.{◌>>=◌}
use wiremux.Profile.Refuse.{
  UrlParser, is_forbidden_key, is_url_field, url_allowed, has_bang, has_dollar_paren,
  is_native_module_path, refuse_interpolation, check_url, scan_string, child_path, scan_value,
  scan_items, scan_fields, scan,
}

-- A text that runs nothing, and that is an allowed URL under a key of a URL.
unfoldable pub is_safe : UrlParser → Str → Str → Bool
is_safe parse key s =
    not (is_native_module_path s)
    && (not (has_bang s)
        && (not (has_dollar_paren s) && (not (is_url_field key) || url_allowed parse (trim s))))

-- Every key is one that may be there, and every string is safe under its key, at any depth.
unfoldable mutual
  pub is_clean : UrlParser → Str → Value → Bool
  is_clean parse key (object fs) = fields_clean parse fs
  is_clean parse key (array vs) = items_clean parse key vs
  is_clean parse key (string s) = is_safe parse key s
  is_clean parse key null = true
  is_clean parse key (bool b) = true
  is_clean parse key (number n) = true

  pub items_clean : UrlParser → Str → Items → Bool
  items_clean parse key nil = true
  items_clean parse key (cons v vs) = is_clean parse key v && items_clean parse key vs

  pub fields_clean : UrlParser → Fields → Bool
  fields_clean parse end = true
  fields_clean parse (field k v fs) =
      (not (is_forbidden_key k) && is_clean parse k v) && fields_clean parse fs

abbrev lets_through : Result ProfileError (Unit {0}) → Bool
lets_through (ok u) = true
lets_through (err e) = false

both-true : {a b : Bool} → a ≡ true → b ≡ true → (a && b) ≡ true
both-true h k = ground arith

-- Two scans, one behind the other.
both-let :
    (m n : Result ProfileError (Unit {0}))
    → lets_through (m >>= (λ u. n)) ≡ true
    → (lets_through m ≡ true) × (lets_through n ≡ true)
both-let (ok u) n h = (refl, h)
both-let (err e) n h = ground arith

refuse_interpolation-safe :
    (s path : Str)
    → lets_through (refuse_interpolation s path) ≡ true
    → (not (has_bang s) && not (has_dollar_paren s)) ≡ true
unfolding refuse_interpolation
refuse_interpolation-safe s path h = ground arith

url-allowed :
    (parse : UrlParser) (s key path : Str)
    → lets_through (if is_url_field key then check_url parse path s else ok tt) ≡ true
    → (not (is_url_field key) || url_allowed parse (trim s)) ≡ true
unfolding check_url
url-allowed parse s key path h = ground arith

guard-let :
    (b : Bool) (e : ProfileError) (m : Result ProfileError (Unit {0}))
    → lets_through (if b then err e else m) ≡ true
    → (b ≡ false) × (lets_through m ≡ true)
guard-let true e m h = ground arith
guard-let false e m h = (refl, h)

scan_string-is_safe :
    (parse : UrlParser) (s key path : Str)
    → lets_through (scan_string parse s key path) ≡ true
    → is_safe parse key s ≡ true
unfolding scan_string is_safe
scan_string-is_safe parse s key path h =
    let (n, m) = guard-let (is_native_module_path s) _ _ h in
    let (u, i) =
      both-let (if is_url_field key then check_url parse path s else ok tt)
        (refuse_interpolation s path) m in
    ground (arith, url-allowed parse s key path u, refuse_interpolation-safe s path i, n)

mutual
  unfolding is_clean items_clean fields_clean scan_value scan_items scan_fields

  scan_value-clean :
      (parse : UrlParser) (v : Value) (key path : Str)
      → lets_through (scan_value parse v key path) ≡ true
      → is_clean parse key v ≡ true
  scan_value-clean parse (object fs) key path h = scan_fields-clean parse fs path h
  scan_value-clean parse (array vs) key path h = scan_items-clean parse vs key path 0 h
  scan_value-clean parse (string s) key path h = scan_string-is_safe parse s key path h
  scan_value-clean parse null key path h = refl
  scan_value-clean parse (bool b) key path h = refl
  scan_value-clean parse (number n) key path h = refl

  scan_items-clean :
      (parse : UrlParser) (vs : Items) (key path : Str) (i : ℕ)
      → lets_through (scan_items parse vs key path i) ≡ true
      → items_clean parse key vs ≡ true
  scan_items-clean parse nil key path i h = refl
  scan_items-clean parse (cons v vs) key path i h =
      let (a, b) =
        both-let (scan_value parse v key (path ++ (str "[" ++ (decimal i ++ str "]")))) _ h in
      both-true (scan_value-clean parse v key _ a) (scan_items-clean parse vs key path (suc i) b)

  scan_fields-clean :
      (parse : UrlParser) (fs : Fields) (path : Str)
      → lets_through (scan_fields parse fs path) ≡ true
      → fields_clean parse fs ≡ true
  scan_fields-clean parse end path h = refl
  scan_fields-clean parse (field k v fs) path h =
      let (a, b) =
        both-let
          (if is_forbidden_key k
            then err (forbidden_key k)
            else scan_value parse v k (child_path path k))
          _ h in
      let (f, c) = guard-let (is_forbidden_key k) _ _ a in
      both-true (both-true (ap not f) (scan_value-clean parse v k (child_path path k) c))
        (scan_fields-clean parse fs path b)

-- A document that the scan lets through has no forbidden key at any depth, in any case of its letters;
-- no string in it is a path of a native module, starts with `!` or holds a first `$(` with a `)` behind
-- it; and every string under a key of a URL is an allowed one.
pub scan-is_clean :
    (parse : UrlParser) (v : Value) → scan parse v ≡ ok tt → is_clean parse [] v ≡ true
unfolding scan
scan-is_clean parse v h = scan_value-clean parse v [] [] (ap lets_through h)
