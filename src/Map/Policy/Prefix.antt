-- ===== src/Map/Policy/Prefix.antt =====
-- crates/wiremux/src/map/mod.rs: the system prompt's prefix.
use wiremux.Prelude.{
  ◌++◌, ◌⊎◌, ◌≢◌, true, List, [], ◌∷◌, Option, none, some, append-nil, is_none, is_some, ◌≡◌, refl,
  sym, ap, ◌∙◌, inl, inr, arith, Option-cases,
}
use wiremux.Prelude.Text.{Str, strip_prefix, strip_prefix-append}
use wiremux.Ir.{IrRequest, IrItem, system}
use wiremux.Profile.Types.{ResolvedProfile}
use wiremux.Map.Policy.{
  starts_with, prompt_prefix, prefixed, prefix_first, prefix_items, apply_system_prefix,
}

-- The text of the first system item.
unfoldable pub first_system : List IrItem → Option Str
first_system [] = none
first_system (system text breakpoint parts ∷ items) = some text
first_system (item ∷ items) = first_system items

-- What is sent for the first system text: the text itself if the prefix stands in front of something
-- in it, the prefix in front of the text if not, and the prefix alone where there is no system text.
pub IsSentFor : Str → Option Str → Str → Type 0
IsSentFor p none sent = sent ≡ p
IsSentFor p (some t) sent =
    ((rest : Str) × (t ≡ p ++ rest) × (sent ≡ t))
    ⊎ (((rest : Str) → t ≢ p ++ rest) × (sent ≡ p ++ t))

strip_prefix-rest : (p t s : Str) → strip_prefix p t ≡ some s → t ≡ p ++ s
unfolding strip_prefix
strip_prefix-rest [] t s h = ground arith
strip_prefix-rest (x ∷ p) [] s h = ground arith
strip_prefix-rest (x ∷ p) (y ∷ t) s h = ground (arith, strip_prefix-rest p t s)

prefixed-IsSentFor : (p t : Str) → IsSentFor p (some t) (prefixed p t)
unfolding IsSentFor prefixed starts_with
prefixed-IsSentFor p t = elim (Option-cases (strip_prefix p t)) [
  | inl h ↦ rw h (inr ((λ rest e. ground (arith, strip_prefix-append p rest)), refl))
  | inr (rest, h) ↦ rw h (inl (rest, strip_prefix-rest p t rest h, refl))
]

-- The items without the first system item.
unfoldable pub other_items : List IrItem → List IrItem
other_items [] = []
other_items (system text breakpoint parts ∷ items) = items
other_items (item ∷ items) = item ∷ other_items items

starts_with-prefixed : (p t : Str) → starts_with (prefixed p t) p ≡ true
unfolding starts_with prefixed
starts_with-prefixed p t = ground (arith, strip_prefix-append p t)

starts_with_self : (p : Str) → starts_with p p ≡ true
unfolding starts_with
starts_with_self p =
    ap is_some (ap (strip_prefix p) (sym (append-nil p)) ∙ strip_prefix-append p [])

first_system-prefix_first :
    (p : Str) (items : List IrItem)
    → elim (prefix_first p items) [ none ↦ first_system items | some items' ↦ first_system items' ]
      ≡ elim (first_system items) [ none ↦ none | some t ↦ some (prefixed p t) ]
unfolding first_system prefix_first
first_system-prefix_first p [] = refl
first_system-prefix_first p (item ∷ items) = ground (arith, first_system-prefix_first p items)

prefixed-prefixed : (p t : Str) → prefixed p (prefixed p t) ≡ prefixed p t
unfolding prefixed
prefixed-prefixed p t = rw (starts_with-prefixed p t) refl

system_text : IrItem → Str
system_text (system text breakpoint parts) = text
system_text item = []

prefix_first-again :
    (p : Str) (items : List IrItem)
    → elim (prefix_first p items) [ none ↦ none | some items' ↦ prefix_first p items' ]
      ≡ prefix_first p items
unfolding prefix_first system_text
prefix_first-again p [] = refl
prefix_first-again p (item ∷ items) =
    ground (arith, prefix_first-again p items, prefixed-prefixed p (system_text item))

prefix_first-found :
    (p : Str) (items items' : List IrItem)
    → prefix_first p items ≡ some items'
    → prefix_first p items' ≡ some items'
prefix_first-found p items items' h = ground (arith, prefix_first-again p items)

prefix_items-again :
    (p : Str) (items : List IrItem) → prefix_items p (prefix_items p items) ≡ prefix_items p items
unfolding prefix_items prefix_first prefixed
prefix_items-again p items = elim (Option-cases (prefix_first p items)) [
  | inl h ↦ rw (prefix_items, h, starts_with_self p) refl
  | inr (items', h) ↦ rw (prefix_items, h, prefix_first-found p items items' h) refl
]

prefix_first-is_none :
    (p : Str) (items : List IrItem) → is_none (prefix_first p items) ≡ is_none (first_system items)
unfolding prefix_first first_system
prefix_first-is_none p [] = refl
prefix_first-is_none p (item ∷ items) = ground (arith, prefix_first-is_none p items)

first_system-prefix_items :
    (p : Str) (items : List IrItem)
    → first_system (prefix_items p items)
      ≡ some (elim (first_system items) [ none ↦ p | some t ↦ prefixed p t ])
unfolding prefix_items first_system
first_system-prefix_items p items = elim (Option-cases (prefix_first p items)) [
  | inl h ↦ ground (arith, prefix_first-is_none p items)
  | inr (items', h) ↦
      ground (arith, first_system-prefix_first p items, prefix_first-is_none p items)
]

other_items-prefix_first :
    (p : Str) (items : List IrItem)
    → elim (prefix_first p items) [ none ↦ items | some items' ↦ other_items items' ]
      ≡ other_items items
unfolding other_items prefix_first
other_items-prefix_first p [] = refl
other_items-prefix_first p (item ∷ items) = ground (arith, other_items-prefix_first p items)

other_items-prefix_items :
    (p : Str) (items : List IrItem) → other_items (prefix_items p items) ≡ other_items items
unfolding prefix_items other_items
other_items-prefix_items p items = ground (arith, other_items-prefix_first p items)

apply_system_prefix-some :
    (ir : IrRequest) (profile : ResolvedProfile) (p : Str)
    → prompt_prefix profile ≡ some p
    → apply_system_prefix ir profile ≡ record ir { items = prefix_items p ir.items }
unfolding apply_system_prefix
apply_system_prefix-some ir profile p h = rw (apply_system_prefix, h) refl

first_system-IsSentFor :
    (p : Str) (items : List IrItem)
    → (sent : Str) × (first_system (prefix_items p items) ≡ some sent)
      × IsSentFor p (first_system items) sent
unfolding IsSentFor
first_system-IsSentFor p items = elim (Option-cases (first_system items)) [
  | inl h ↦ (p, ground (arith, first_system-prefix_items p items), rw h refl)
  | inr (t, h) ↦ (
    prefixed p t,
    ground (arith, first_system-prefix_items p items),
    rw h (prefixed-IsSentFor p t),
  )
]

-- Where the fingerprint has a system prompt prefix that is not empty, the request that
-- apply_system_prefix makes has a first system item. Its text is the text of the request's own first
-- system item if that text already is the prefix with something or nothing behind it, the prefix with
-- the whole of that text behind it if not, and the prefix alone if the request has no system item. The
-- other items are those of the request, in their order, and to apply the prefix twice is to apply it
-- once.
pub apply_system_prefix_lem :
    (ir : IrRequest) (profile : ResolvedProfile) (p : Str)
    → prompt_prefix profile ≡ some p
    → ((sent : Str) × (first_system (apply_system_prefix ir profile).items ≡ some sent)
        × IsSentFor p (first_system ir.items) sent)
      × (other_items (apply_system_prefix ir profile).items ≡ other_items ir.items)
      × (apply_system_prefix (apply_system_prefix ir profile) profile
          ≡ apply_system_prefix ir profile)
apply_system_prefix_lem ir profile p h = (
  (rw (apply_system_prefix-some ir profile p h) (first_system-IsSentFor p ir.items)),
  (rw (apply_system_prefix-some ir profile p h) (other_items-prefix_items p ir.items)),
  (rw (apply_system_prefix-some ir profile p h) (
      apply_system_prefix-some (record ir { items = prefix_items p ir.items }) profile p h
      ∙ ap (λ is. record ir { items = is }) (prefix_items-again p ir.items))),
)
