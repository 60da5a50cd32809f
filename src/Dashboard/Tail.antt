-- ===== src/Dashboard/Tail.antt =====
-- dashboard.py, _tail_lines: the last lines of a file, read from its end in chunks.
pub mod Lines
use orchestrator_service.Prelude.{
  ℕ, zero, suc, ◌+◌, ◌-◌, ◌≤◌, ◌<◌, min, Text, Bool, true, false, not, ◌&&◌, ◌≡◌, refl, sym, ap,
  ◌∙◌, ◌⊎◌, inl, inr, List, [], ◌∷◌, ◌++◌, reverse, length, take, drop, join_lines, ltb, leb, ◌==◌,
  ==_iff, if◌then◌else◌, arith, Bool-cases,
}
use mathlib.Core.List.{append_assoc, append-nil}
use orchestrator_service.Runner.Stream.{split_from, splitlines}
use orchestrator_service.Dashboard.Tail.Lines.{
  newlines, newlines-append, last_of, last_of-append, split_from-append, newlines-le_lines,
  cut_at_newline,
}

-- b"".join(chunks)
unfoldable pub join : List (List ℕ) → List ℕ
join [] = []
join (c ∷ cs) = c ++ join cs

-- The while loop, one unit of fuel for each read; `collected` has the chunk that was read last first,
-- as reversed(collected) has.
unfoldable pub read_back : ℕ → ℕ → List ℕ → ℕ → ℕ → ℕ → List (List ℕ) → List (List ℕ)
unfolding newlines
read_back chunk zero file n pos seen collected = collected
read_back chunk (suc fuel) file n pos seen collected = elim (ltb 0 pos && leb seen n) [
  | true ↦
      let read_size = min chunk pos in
      let bytes = take read_size (drop (pos - read_size) file) in
      read_back chunk fuel file n (pos - read_size) (seen + newlines bytes) (bytes ∷ collected)
  | false ↦ collected
]

-- `decode` is bytes.decode("utf-8", errors="replace"), `file` the bytes of the file, which does not
-- change while it is read.
module _ (decode : List ℕ → Text) where
  unfoldable pub tail_lines_by : ℕ → List ℕ → ℕ → Text
  unfolding read_back join last_of
  tail_lines_by chunk file n =
      let size = length file in
      let text = decode (join (read_back chunk size file n size 0 [])) in
      join_lines (last_of n (splitlines text))

  unfoldable pub tail_lines : List ℕ → ℕ → Text
  unfolding tail_lines_by
  tail_lines = tail_lines_by 65536

take-drop : (n : ℕ) (xs : List ℕ) → take n xs ++ drop n xs ≡ xs
take-drop zero xs = refl
take-drop (suc n) [] = refl
take-drop (suc n) (x ∷ xs) = ap (λ l. x ∷ l) (take-drop n xs)

drop-nil : (n : ℕ) → drop {A = ℕ} n [] ≡ []
drop-nil zero = refl
drop-nil (suc n) = refl

drop-drop : (m n : ℕ) (xs : List ℕ) → drop n (drop m xs) ≡ drop (m + n) xs
drop-drop zero n xs = ap (λ (k : ℕ). drop k xs) (omega arith)
drop-drop (suc m) n [] = drop-nil n ∙ sym (drop-nil (suc m + n))
drop-drop (suc m) n (x ∷ xs) =
    let shift : suc m + n ≡ suc (m + n) = omega arith in rw shift (drop-drop m n xs)

drop-all : (xs : List ℕ) → drop (length xs) xs ≡ []
drop-all [] = refl
drop-all (x ∷ xs) = drop-all xs

-- One read, in front of what is there already.
chunk-drop :
    (pos size : ℕ) (file : List ℕ)
    → size ≤ pos
    → take size (drop (pos - size) file) ++ drop pos file ≡ drop (pos - size) file
chunk-drop pos size file le =
    ap (λ l. take size (drop (pos - size) file) ++ l)
      (ap (λ (k : ℕ). drop k file) (omega arith) ∙ sym (drop-drop (pos - size) size file))
    ∙ take-drop size (drop (pos - size) file)

stopped :
    (pos seen n : ℕ) (file read : List ℕ)
    → (ltb 0 pos && leb seen n) ≡ false
    → seen ≡ newlines read
    → (take pos file ≡ []) ⊎ (n < newlines read)
stopped zero seen n file read e count = inl refl
stopped (suc pos) seen n file read e count = inr (ground arith)

-- The loop reads a part of the file that reaches its end: all of it, or more than `n` newlines.
read_back-lem :
    (chunk fuel : ℕ) (file : List ℕ) (n pos seen : ℕ) (collected : List (List ℕ))
    → 0 < chunk
    → pos ≤ fuel
    → seen ≡ newlines (join collected)
    → join collected ≡ drop pos file
    → (front : List ℕ) × (file ≡ front ++ join (read_back chunk fuel file n pos seen collected))
      × ((front ≡ []) ⊎ (n < newlines (join (read_back chunk fuel file n pos seen collected))))
unfolding read_back join
read_back-lem chunk zero file n pos seen collected some_bytes le count part =
    let start : pos ≡ 0 = omega arith in ([], rw (part, start) refl, inl refl)
read_back-lem chunk (suc fuel) file n pos seen collected some_bytes le count part =
    elim (Bool-cases (ltb 0 pos && leb seen n)) [
      | inl e ↦
          let size = min chunk pos in
          let bytes = take size (drop (pos - size) file) in
          let on : 0 < pos = ground arith in
          rw (e, read_back)
            (read_back-lem chunk fuel file n (pos - size) (seen + newlines bytes)
              (bytes ∷ collected) some_bytes (omega arith)
              (omega (arith, count, newlines-append bytes (join collected)))
              (ap (λ l. bytes ++ l) part ∙ chunk-drop pos size file (omega arith)))
      | inr e ↦
          rw (e, read_back)
            (
              take pos file,
              rw part (sym (take-drop pos file)),
              stopped pos seen n file (join collected) e count,
            )
    ]

-- `cut` says that UTF-8 starts anew at each newline.
module _ (decode : List ℕ → Text)
    (cut : (xs ys : List ℕ) → decode (xs ++ 10 ∷ ys) ≡ decode xs ++ 10 ∷ decode ys) where
  newlines-decode : (p q : List ℕ) → newlines q ≤ newlines (decode (p ++ q))
  unfolding newlines
  newlines-decode p [] = omega arith
  newlines-decode p (c ∷ q) = elim (Bool-cases (c == 10)) [
    | inl e ↦
        let here : decode (p ++ c ∷ q) ≡ decode p ++ 10 ∷ decode q =
          rw ((==_iff c 10).0 e) (cut p q) in
        rw (e, here, newlines-append (decode p) (10 ∷ decode q))
          (omega (arith, newlines-decode [] q))
    | inr e ↦
        rw (e, sym (append_assoc p (c ∷ []) q)) (omega (arith, newlines-decode (p ++ c ∷ []) q))
  ]

  -- The last lines do not depend on what stands before enough newlines.
  last_behind :
      (n : ℕ) (xs ys : List ℕ)
      → 0 < n
      → n ≤ newlines ys
      → last_of n (splitlines (decode (xs ++ 10 ∷ ys))) ≡ last_of n (splitlines (decode ys))
  unfolding splitlines
  last_behind n xs ys pos le =
      let counted = newlines-decode [] ys in
      let lines = newlines-le_lines false [] (decode ys) in
      rw (cut xs ys, split_from-append false [] (decode xs) (decode ys))
        (last_of-append n (split_from false [] (decode xs ++ 10 ∷ []))
          (split_from false [] (decode ys)) pos (omega arith))

  last_of_part :
      (n : ℕ) (front part : List ℕ)
      → 0 < n
      → n < newlines part
      → last_of n (splitlines (decode (front ++ part))) ≡ last_of n (splitlines (decode part))
  last_of_part n front part pos lt =
      let (before, after, is, count) = cut_at_newline part (omega arith) in
      let enough : n ≤ newlines after = omega arith in
      rw (is, sym (append_assoc front before (10 ∷ after)))
        (last_behind n (front ++ before) after pos enough
          ∙ sym (last_behind n before after pos enough))

  -- With any size of the chunks but 0, the part of a file that is read from its end, however short,
  -- gives the same last `n` lines as the whole file would, for each `n` from 1 on.
  tail_lines_by-whole :
      (chunk : ℕ) (file : List ℕ) (n : ℕ)
      → 0 < chunk
      → 0 < n
      → tail_lines_by decode chunk file n ≡ join_lines (last_of n (splitlines (decode file)))
  unfolding tail_lines_by
  tail_lines_by-whole chunk file n bytes pos =
      let size = length file in
      let (front, is, why) =
        read_back-lem chunk size file n size 0 [] bytes (omega arith) refl (sym (drop-all file)) in
      let part = join (read_back chunk size file n size 0 []) in
      ap join_lines (elim why [
        | inl empty ↦
            ap (λ f. last_of n (splitlines (decode f))) (sym (is ∙ ap (λ f. f ++ part) empty))
        | inr lt ↦
            sym (ap (λ f. last_of n (splitlines (decode f))) is ∙ last_of_part n front part pos lt)
      ])

  -- The last n lines, for each n from 1 on, that the dashboard shows of a file, which it reads from
  -- the end in chunks, are the last n lines of the whole file decoded at once, if decoding starts
  -- anew at each newline.
  pub tail_lines-whole :
      (file : List ℕ) (n : ℕ)
      → 0 < n
      → tail_lines decode file n ≡ join_lines (last_of n (splitlines (decode file)))
  unfolding tail_lines
  tail_lines-whole file n pos = tail_lines_by-whole 65536 file n (omega arith) pos
