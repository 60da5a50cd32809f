-- ===== src/Narrative/Consumers/Names.antt =====
-- The name of a tool in a line, whose end does not depend on the spaces behind it.
use orchestrator_service.Prelude.{
  ℕ, Text, Bool, true, false, ◌≡◌, refl, sym, ap, ◌∙◌, inl, inr, [], ◌∷◌, ◌++◌, reverse, is_space,
  lstrip, strip, All, All-reverse, Bool-cases, arith,
}
use mathlib.Core.List.{reverse-append, reverse-reverse}
use orchestrator_service.Runner.Stream.{letter, digit, run_of, token_char, token_of}

AreSpaces : Text → Type 0
AreSpaces t = All (λ c. is_space c ≡ true) t

lstrip-split : (t : Text) → (front : Text) × (AreSpaces front) × (t ≡ front ++ lstrip t)
unfolding lstrip AreSpaces
lstrip-split [] = ([], tt, refl)
lstrip-split (c ∷ t) = elim (Bool-cases (is_space c)) [
  | inl e ↦
      let (front, spaces, is) = lstrip-split t in
      (c ∷ front, (e, spaces), rw e (ap (λ l. c ∷ l) is))
  | inr e ↦ ([], tt, rw e refl)
]

-- What strip takes from the end of a text that lstrip has seen.
strip-split : (t : Text) → (back : Text) × (AreSpaces back) × (lstrip t ≡ strip t ++ back)
unfolding strip AreSpaces
strip-split t =
    let (front, spaces, is) = lstrip-split (reverse (lstrip t)) in
    (
      reverse front,
      All-reverse (λ c. is_space c ≡ true) front spaces,
      sym (reverse-reverse (lstrip t))
          ∙ (ap reverse is ∙ reverse-append front (lstrip (reverse (lstrip t)))),
    )

run_of-spaces :
    (test : ℕ → Bool) (t back : Text)
    → ((c : ℕ) → is_space c ≡ true → test c ≡ false)
    → AreSpaces back
    → run_of test (t ++ back) ≡ run_of test t
unfolding run_of AreSpaces
run_of-spaces test [] [] no_space h = refl
run_of-spaces test [] (c ∷ back) no_space (h, hs) = rw (no_space c h) refl
run_of-spaces test (c ∷ t) back no_space h = rw (run_of-spaces test t back no_space h) refl

space-token_char : (c : ℕ) → is_space c ≡ true → token_char c ≡ false
unfolding is_space token_char letter digit
space-token_char c h = ground arith

space-letter : (c : ℕ) → is_space c ≡ true → letter c ≡ false
unfolding is_space letter
space-letter c h = ground arith

token_of-spaces : (t back : Text) → AreSpaces back → token_of (t ++ back) ≡ token_of t
unfolding token_of AreSpaces
token_of-spaces [] [] h = refl
token_of-spaces [] (c ∷ back) (h, hs) = rw (space-letter c h) refl
token_of-spaces (c ∷ t) back h = rw (run_of-spaces token_char t back space-token_char h) refl

-- The name of a tool ends before the spaces at the end of a line.
pub token_of-strip : (t : Text) → token_of (lstrip t) ≡ token_of (strip t)
token_of-strip t =
    let (back, spaces, is) = strip-split t in ap token_of is ∙ token_of-spaces (strip t) back spaces
