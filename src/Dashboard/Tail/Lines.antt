-- ===== src/Dashboard/Tail/Lines.antt =====
-- str.splitlines and newlines: what a text's last lines depend on.
use orchestrator_service.Prelude.{
  ℕ, zero, suc, ◌+◌, ◌-◌, ◌≤◌, ◌<◌, Text, Bool, true, false, not, ◌&&◌, ◌≡◌, ◌⊎◌, refl, ap, ◌∙◌,
  inl, inr, List, [], ◌∷◌, ◌++◌, reverse, length, drop, length-append, ◌==◌, ==_iff, if◌then◌else◌,
  arith, Bool-cases,
}
use orchestrator_service.Runner.Stream.{is_line_end, split_from}

-- data.count(b"\n")
unfoldable pub newlines : List ℕ → ℕ
newlines [] = 0
newlines (c ∷ t) = (if c == 10 then 1 else 0) + newlines t

-- lines[-n:]
unfoldable pub last_of : ℕ → List Text → List Text
last_of n lines = if n == 0 then lines else drop (length lines - n) lines

drop-append :
    (n : ℕ) (xs ys : List Text) → length xs ≤ n → drop n (xs ++ ys) ≡ drop (n - length xs) ys
drop-append n [] ys h = ap (λ (k : ℕ). drop k ys) (omega arith)
drop-append zero (x ∷ xs) ys h = absurd (omega arith)
drop-append (suc n) (x ∷ xs) ys h =
    drop-append n xs ys (omega arith) ∙ ap (λ (k : ℕ). drop k ys) (omega arith)

-- Enough lines at the end hide what stands before them.
pub last_of-append :
    (n : ℕ) (xs ys : List Text) → 0 < n → n ≤ length ys → last_of n (xs ++ ys) ≡ last_of n ys
unfolding last_of
last_of-append n xs ys pos le =
    let size = length-append xs ys in
    let same = drop-append (length (xs ++ ys) - n) xs ys (omega arith) in
    let count : length (xs ++ ys) - n - length xs ≡ length ys - n = omega arith in
    let other : (n == 0) ≡ false = ground arith in rw other (same ∙ ap (λ (k : ℕ). drop k ys) count)

pub ends_line : (c : ℕ) → ((c == 10) ≡ true) ⊎ ((c == 13) ≡ true) → is_line_end c ≡ true
unfolding is_line_end
ends_line c (inl e) = rw ((==_iff c 10).0 e) refl
ends_line c (inr e) = rw ((==_iff c 13).0 e) refl

split_from-newline :
    (cr : Bool) (acc ys : Text)
    → split_from cr acc (10 ∷ ys) ≡ split_from cr acc (10 ∷ []) ++ split_from false [] ys
unfolding split_from is_line_end
split_from-newline true acc ys = refl
split_from-newline false acc ys = refl

-- A newline ends a line whatever stands before it.
pub split_from-append :
    (cr : Bool) (acc xs ys : Text)
    → split_from cr acc (xs ++ 10 ∷ ys)
      ≡ split_from cr acc (xs ++ 10 ∷ []) ++ split_from false [] ys
unfolding split_from
split_from-append cr acc [] ys = split_from-newline cr acc ys
split_from-append cr acc (c ∷ xs) ys =
    let rest = split_from-append (c == 13) (if is_line_end c then [] else c ∷ acc) xs ys in
    elim (Bool-cases (is_line_end c && not (cr && c == 10))) [
      | inl e ↦ rw (e, rest) refl
      | inr e ↦ rw (e, rest) refl
    ]

count_step :
    (cr : Bool) (c : ℕ) (ends : Bool) (n : ℕ) (l : Text) (ls : List Text)
    → (((c == 10) ≡ true) ⊎ ((c == 13) ≡ true) → ends ≡ true)
    → n ≤ length ls + (if c == 13 then 1 else 0)
    → (if c == 10 then 1 else 0) + n
      ≤ length (if ends && not (cr && c == 10) then l ∷ ls else ls) + (if cr then 1 else 0)
count_step cr c true n l ls h le = ground arith
count_step cr c false n l ls h le = elim (Bool-cases (c == 10)) [
  | inl e ↦ cc (h (inl e))
  | inr e ↦ elim (Bool-cases (c == 13)) [ inl f ↦ cc (h (inr f)) | inr f ↦ ground arith ]
]

-- Each newline ends a line, but for one behind a \r.
pub newlines-le_lines :
    (cr : Bool) (acc t : Text) → newlines t ≤ length (split_from cr acc t) + (if cr then 1 else 0)
unfolding newlines split_from
newlines-le_lines cr acc [] = omega arith
newlines-le_lines cr acc (c ∷ t) =
    count_step cr c (is_line_end c) (newlines t) (reverse acc)
      (split_from (c == 13) (if is_line_end c then [] else c ∷ acc) t) (ends_line c)
      (newlines-le_lines (c == 13) (if is_line_end c then [] else c ∷ acc) t)

-- A text with a newline is cut at its first one.
pub cut_at_newline :
    (t : Text)
    → 0 < newlines t
    → (front : Text) × (back : Text) × (t ≡ front ++ 10 ∷ back) × (newlines t ≡ suc (newlines back))
unfolding newlines
cut_at_newline [] h = absurd (omega arith)
cut_at_newline (c ∷ t) h = elim (Bool-cases (c == 10)) [
  | inl e ↦ ([], t, ap (λ (x : ℕ). x ∷ t) ((==_iff c 10).0 e), rw e (omega arith))
  | inr e ↦
      let more : 0 < newlines t = ground arith in
      let (front, back, cut, count) = cut_at_newline t more in
      (c ∷ front, back, ap (λ l. c ∷ l) cut, rw e (omega (arith, count)))
]

pub newlines-append : (xs ys : List ℕ) → newlines (xs ++ ys) ≡ newlines xs + newlines ys
unfolding newlines
newlines-append [] ys = omega arith
newlines-append (x ∷ xs) ys = omega (arith, newlines-append xs ys)
