-- ===== src/Filters/Senders.antt =====
-- filters.py: reading DIRECT_BODY_ALLOWED_SENDERS back as the list that was written there.
use mathlib.Core.List.{append-nil}
use orchestrator_service.Prelude.{
  ℕ, Text, false, ◌≡◌, refl, ◌≢◌, ap, ◌∙◌, List, [], ◌∷◌, ◌++◌, map, reverse, All, strip, lower,
  arith, is_empty, ◌==◌, ==_iff, reverse-cons-append,
}
use orchestrator_service.Filters.{split_from, senders_of, direct_body_allowed_senders}

-- ",".join(names)
abbrev join_from : Text → List Text → Text
join_from name [] = name
join_from name (n ∷ ns) = name ++ (b',' ∷ join_from n ns)

==_of_ne : (a b : ℕ) → a ≢ b → (a == b) ≡ false
==_of_ne a b h = ground arith

split_from_none :
    (sep : ℕ) (acc s : Text) → All (λ c. c ≢ sep) s → split_from sep acc s ≡ (reverse acc ++ s) ∷ []
unfolding split_from
split_from_none sep acc [] h = rw append-nil
split_from_none sep acc (c ∷ s) h =
    rw (==_of_ne c sep h.0)
      (split_from_none sep (c ∷ acc) s h.1 ∙ ap (λ t. t ∷ []) (reverse-cons-append c acc s))

split_from-append :
    (sep : ℕ) (acc s t : Text)
    → All (λ c. c ≢ sep) s
    → split_from sep acc (s ++ (sep ∷ t)) ≡ (reverse acc ++ s) ∷ split_from sep [] t
unfolding split_from
split_from-append sep acc [] t h = rw ((==_iff sep sep).1 refl, append-nil)
split_from-append sep acc (c ∷ s) t h = rw (==_of_ne c sep h.0) (
    split_from-append sep (c ∷ acc) s t h.1
    ∙ ap (λ u. u ∷ split_from sep [] t) (reverse-cons-append c acc s))

-- A name as an operator writes it: not empty, trimmed, without a comma.
abbrev pub IsSender : Text → Type 0
IsSender s = (is_empty s ≡ false) × (strip s ≡ s) × All (λ c. c ≢ b',') s

split-join :
    (name : Text) (names : List Text)
    → IsSender name
    → All IsSender names
    → split_from b',' [] (join_from name names) ≡ name ∷ names
split-join name [] h hs = split_from_none b',' [] name h.2
split-join name (n ∷ ns) h hs =
    split_from-append b',' [] name (join_from n ns) h.2
    ∙ ap (λ u. name ∷ u) (split-join n ns hs.0 hs.1)

senders_of-map : (names : List Text) → All IsSender names → senders_of names ≡ map lower names
unfolding senders_of
senders_of-map [] h = refl
senders_of-map (n ∷ ns) (h, hs) = rw (h.1) (rw (h.0) (ap (λ u. lower n ∷ u) (senders_of-map ns hs)))

-- The allowlist read from names joined by commas is those names in lower case, if each name is
-- trimmed, not empty and without a comma.
pub allowed_senders-join :
    (name : Text) (names : List Text)
    → IsSender name
    → All IsSender names
    → direct_body_allowed_senders (join_from name names) ≡ map lower (name ∷ names)
unfolding direct_body_allowed_senders
allowed_senders-join name names h hs =
    ap senders_of (split-join name names h hs) ∙ senders_of-map (name ∷ names) (h, hs)
