-- ===== src/Map/PromptCache/Laws.antt =====
-- crates/wiremux/src/map/mod.rs: the breakpoints that are peeled off, and what a system role keeps.
use wiremux.Prelude.{
  true, List, [], ◌∷◌, ◌++◌, Option, none, some, if◌then◌else◌, is_none, length, ◌≡◌, refl, ap, sym,
  ◌∙◌, arith, ◌+◌, ℕ, length-append, append-nil, append_assoc,
}
use wiremux.Prelude.Text.{Str, join}
use wiremux.Ir.{
  IrPart, part_text, image_url, image_base64, thinking, raw, document, audio,
  prompt_cache_breakpoint,
}
use wiremux.Ir.Loss.{LossReport, note}
use wiremux.Map.PromptCache.{
  peel_prompt_cache, peel_prompt_cache_modes, peel_prompt_cache_all, innermost, role_part,
  role_parts, system_role_text,
}

-- A part inside breakpoints of some modes, the first mode outermost.
unfoldable pub wrap : List Str → IrPart → IrPart
wrap [] part = part
wrap (mode ∷ modes) part = prompt_cache_breakpoint mode (wrap modes part)

unfoldable pub first : List Str → Option Str
first [] = none
first (x ∷ xs) = some x

wrap-modes :
    (part : IrPart) → wrap (peel_prompt_cache_modes part).1 (peel_prompt_cache_modes part).0 ≡ part
unfolding wrap peel_prompt_cache_modes
wrap-modes (part_text a) = refl
wrap-modes (image_url a b c d) = refl
wrap-modes (image_base64 a b) = refl
wrap-modes (thinking a b) = refl
wrap-modes (raw a b) = refl
wrap-modes (document a b c d e) = refl
wrap-modes (audio a b) = refl
wrap-modes (prompt_cache_breakpoint mode inner) =
    ap (prompt_cache_breakpoint mode) (wrap-modes inner)

payload-is_none :
    (part : IrPart) → is_none (peel_prompt_cache (peel_prompt_cache_modes part).0).1 ≡ true
unfolding peel_prompt_cache peel_prompt_cache_modes
payload-is_none (part_text a) = refl
payload-is_none (image_url a b c d) = refl
payload-is_none (image_base64 a b) = refl
payload-is_none (thinking a b) = refl
payload-is_none (raw a b) = refl
payload-is_none (document a b c d e) = refl
payload-is_none (audio a b) = refl
payload-is_none (prompt_cache_breakpoint mode inner) = payload-is_none inner

payload-innermost : (part : IrPart) → innermost part ≡ (peel_prompt_cache_modes part).0
unfolding innermost peel_prompt_cache_modes
payload-innermost (part_text a) = refl
payload-innermost (image_url a b c d) = refl
payload-innermost (image_base64 a b) = refl
payload-innermost (thinking a b) = refl
payload-innermost (raw a b) = refl
payload-innermost (document a b c d e) = refl
payload-innermost (audio a b) = refl
payload-innermost (prompt_cache_breakpoint mode inner) = payload-innermost inner

peel_all-modes :
    (part : IrPart)
    → peel_prompt_cache_all part
      ≡ ((peel_prompt_cache_modes part).0, first (peel_prompt_cache_modes part).1)
unfolding first peel_prompt_cache_modes peel_prompt_cache_all
peel_all-modes (part_text a) = refl
peel_all-modes (image_url a b c d) = refl
peel_all-modes (image_base64 a b) = refl
peel_all-modes (thinking a b) = refl
peel_all-modes (raw a b) = refl
peel_all-modes (document a b c d e) = refl
peel_all-modes (audio a b) = refl
peel_all-modes (prompt_cache_breakpoint mode inner) =
    ap (λ x. (x, some mode)) (payload-innermost inner)

-- Peeling takes a part apart without loss: the modes around the payload give the part again, the
-- payload is in no breakpoint, and the peel of all layers has that payload and the outermost mode.
pub wrap-peel :
    (part : IrPart)
    → (wrap (peel_prompt_cache_modes part).1 (peel_prompt_cache_modes part).0 ≡ part)
      × (is_none (peel_prompt_cache (peel_prompt_cache_modes part).0).1 ≡ true)
      × (peel_prompt_cache_all part
          ≡ ((peel_prompt_cache_modes part).0, first (peel_prompt_cache_modes part).1))
wrap-peel part = (wrap-modes part, payload-is_none part, peel_all-modes part)

-- The text of a part whose payload is one.
unfoldable pub payload_text : IrPart → Option Str
payload_text (part_text value) = some value
payload_text (thinking text signature) = some text
payload_text (prompt_cache_breakpoint mode inner) = payload_text inner
payload_text part = none

unfoldable pub payload_texts : List IrPart → List Str
payload_texts [] = []
payload_texts (p ∷ ps) = elim (payload_text p) [
  | none ↦ payload_texts ps
  | some t ↦ t ∷ payload_texts ps
]

unfoldable pub other_payloads : List IrPart → ℕ
other_payloads [] = 0
other_payloads (p ∷ ps) =
    if is_none (payload_text p) then 1 + other_payloads ps else other_payloads ps

peel_all-innermost : (part : IrPart) → (peel_prompt_cache_all part).0 ≡ innermost part
unfolding innermost peel_prompt_cache_all
peel_all-innermost (part_text a) = refl
peel_all-innermost (image_url a b c d) = refl
peel_all-innermost (image_base64 a b) = refl
peel_all-innermost (thinking a b) = refl
peel_all-innermost (raw a b) = refl
peel_all-innermost (document a b c d e) = refl
peel_all-innermost (audio a b) = refl
peel_all-innermost (prompt_cache_breakpoint mode inner) = refl

role_part-innermost :
    (part : IrPart) (texts : List Str) (r : LossReport)
    → ((role_part (innermost part) texts r).0 ≡ texts ++ payload_texts (part ∷ []))
      × (length (role_part (innermost part) texts r).1.events
          ≡ length r.events + other_payloads (part ∷ []))
unfolding innermost role_part payload_texts other_payloads payload_text note
role_part-innermost (part_text a) texts r = (refl, omega arith)
role_part-innermost (image_url a b c d) texts r = (sym (append-nil texts), length-append r.events _)
role_part-innermost (image_base64 a b) texts r = (sym (append-nil texts), length-append r.events _)
role_part-innermost (thinking a b) texts r = (refl, omega arith)
role_part-innermost (raw a b) texts r = (sym (append-nil texts), length-append r.events _)
role_part-innermost (document a b c d e) texts r =
    (sym (append-nil texts), length-append r.events _)
role_part-innermost (audio a b) texts r = (sym (append-nil texts), length-append r.events _)
role_part-innermost (prompt_cache_breakpoint mode inner) texts r = role_part-innermost inner texts r

payload_texts-cons :
    (part : IrPart) (parts : List IrPart)
    → payload_texts (part ∷ parts) ≡ payload_texts (part ∷ []) ++ payload_texts parts
unfolding payload_texts
payload_texts-cons part parts = ground arith

other_payloads-cons :
    (part : IrPart) (parts : List IrPart)
    → other_payloads (part ∷ parts) ≡ other_payloads (part ∷ []) + other_payloads parts
unfolding other_payloads
other_payloads-cons part parts = ground arith

role_part-peeled :
    (part : IrPart) (texts : List Str) (r : LossReport)
    → ((role_part (peel_prompt_cache_all part).0 texts r).0 ≡ texts ++ payload_texts (part ∷ []))
      × (length (role_part (peel_prompt_cache_all part).0 texts r).1.events
          ≡ length r.events + other_payloads (part ∷ []))
role_part-peeled part texts r = rw (peel_all-innermost part) (role_part-innermost part texts r)

role_parts-both :
    (parts : List IrPart) (texts : List Str) (r : LossReport)
    → ((role_parts parts texts r).0 ≡ texts ++ payload_texts parts)
      × (length (role_parts parts texts r).1.events ≡ length r.events + other_payloads parts)
unfolding role_parts
role_parts-both [] texts r =
    unfold payload_texts other_payloads in (sym (append-nil texts), omega arith)
role_parts-both (part ∷ parts) texts r =
    let (p, q) = role_part-peeled part texts r in
    let step = role_part (peel_prompt_cache_all part).0 texts r in
    let (h, k) = role_parts-both parts step.0 step.1 in
    (
      h
          ∙ (rw (p, payload_texts-cons part parts)
              (append_assoc texts (payload_texts (part ∷ [])) (payload_texts parts))),
      omega (arith, k, q, other_payloads-cons part parts),
    )

-- The text of a system role with parts is the texts of its parts, in order and behind any
-- breakpoints, and every part that has no text adds one event to the report.
pub system_role_text_lem :
    (text : Str) (part : IrPart) (parts : List IrPart) (r : LossReport)
    → ((system_role_text text (part ∷ parts) r).0 ≡ join [] (payload_texts (part ∷ parts)))
      × (length (system_role_text text (part ∷ parts) r).1.events
          ≡ length r.events + other_payloads (part ∷ parts))
unfolding system_role_text
system_role_text_lem text part parts r =
    let (p, q) = role_parts-both (part ∷ parts) [] r in (ap (join []) p, q)
