-- ===== src/Workspace/Excluded.antt =====
-- workspace.py, _ensure_worktrees_excluded: what it leaves in the exclude file.
use orchestrator_service.Prelude.{
  ℕ, Text, codes, Bool, true, false, not, ◌&&◌, ◌≡◌, refl, ap, ◌∙◌, none, some, List, [], ◌∷◌, ◌++◌,
  reverse, reverse-cons-append, join_lines, join_with, if◌then◌else◌, same_refl, member, All,
  All-append, All-reverse, ◌==◌, Bool-cases, inl, inr, arith,
}
use mathlib.Core.List.{append_assoc, append-nil}
use orchestrator_service.Runner.Stream.{is_line_end, split_from, splitlines}
use orchestrator_service.Dashboard.Tail.Lines.{ends_line}
use orchestrator_service.Workspace.Machine.{Machine}
use orchestrator_service.Workspace.Projects.{
  exclude_line, exclude_path, info_dir, excluded_lines, ensure_worktrees_excluded,
}

-- A line, in which no line ends.
abbrev pub IsLine : Text → Type 0
IsLine l = All (λ c. is_line_end c ≡ false) l

-- The lines of a text are lines.
split_from-AreLines : (cr : Bool) (acc t : Text) → IsLine acc → All IsLine (split_from cr acc t)
unfolding split_from
split_from-AreLines cr [] [] h = tt
split_from-AreLines cr (a ∷ acc) [] h = (All-reverse (λ c. is_line_end c ≡ false) (a ∷ acc) h, tt)
split_from-AreLines cr acc (c ∷ t) h = elim (Bool-cases (is_line_end c)) [
  | inl e ↦
      let rest = split_from-AreLines (c == 13) [] t tt in
      rw e
        (elim (not (cr && c == 10))
          as (λ b.
            All IsLine
              (if b then reverse acc ∷ split_from (c == 13) [] t else split_from (c == 13) [] t)) [
                | true ↦ (All-reverse (λ c. is_line_end c ≡ false) acc h, rest)
                | false ↦ rest
              ])
  | inr e ↦ rw e (split_from-AreLines (c == 13) (c ∷ acc) t (e, h))
]

no_cr : (c : ℕ) → is_line_end c ≡ false → (c == 13) ≡ false
no_cr c h = elim (Bool-cases (c == 13)) [ inl e ↦ cc (ends_line c (inr e)) | inr e ↦ e ]

line_end : (acc t : Text) → split_from false acc (10 ∷ t) ≡ reverse acc ∷ split_from false [] t
unfolding split_from is_line_end
line_end acc t = refl

-- A line and the newline behind it.
split_from-line :
    (acc l t : Text)
    → IsLine l
    → split_from false acc (l ++ 10 ∷ t) ≡ (reverse acc ++ l) ∷ split_from false [] t
unfolding split_from
split_from-line acc [] t h = rw (line_end acc t, append-nil) refl
split_from-line acc (c ∷ l) t (h, hs) =
    rw (h, no_cr c h)
      (split_from-line (c ∷ acc) l t hs
        ∙ ap (λ (x : Text). x ∷ split_from false [] t) (reverse-cons-append c acc l))

-- Lines that are joined, with a newline behind the last, are split into the same lines.
splitlines-join_lines :
    (l : Text) (ls : List Text)
    → All IsLine (l ∷ ls)
    → split_from false [] (join_lines (l ∷ ls) ++ 10 ∷ []) ≡ l ∷ ls
unfolding join_with split_from
splitlines-join_lines l [] (h, hs) = split_from-line [] l [] h
splitlines-join_lines l (m ∷ ms) (h, hs) =
    rw (append_assoc l (10 ∷ join_lines (m ∷ ms)) (10 ∷ [])) (
      split_from-line [] l (join_lines (m ∷ ms) ++ 10 ∷ []) h
      ∙ ap (λ (ls : List Text). l ∷ ls) (splitlines-join_lines m ms hs))

pushed :
    (ls : List Text) (x : Text)
    → All IsLine ls
    → IsLine x
    → split_from false [] (join_lines (ls ++ x ∷ []) ++ 10 ∷ []) ≡ ls ++ x ∷ []
pushed [] x h k = splitlines-join_lines x [] (k, tt)
pushed (l ∷ ls) x (h, hs) k =
    splitlines-join_lines l (ls ++ x ∷ []) (h, All-append IsLine ls (x ∷ []) hs (k, tt))

exclude_line-IsLine : IsLine exclude_line
unfolding exclude_line is_line_end
exclude_line-IsLine =
    (refl, (refl, (refl, (refl, (refl, (refl, (refl, (refl, (refl, (refl, (refl, tt)))))))))))

member-pushed : (x : Text) (ls : List Text) → member x (ls ++ x ∷ []) ≡ true
unfolding member
member-pushed x [] = rw (same_refl x) refl
member-pushed x (l ∷ ls) = rw (member-pushed x ls) (ground arith)

-- `wrote` says that a file that was written is there, with the text that was written.
module _ {W : Type 0} (m : Machine W)
    (wrote : (path text : Text) (w : W)
      → (m.is_file path (m.write_text path text w) ≡ true)
        × (m.read_text path (m.write_text path text w) ≡ some text)) where
  excluded_lines-AreLines : (root : Text) (w : W) → All IsLine (excluded_lines m root w)
  unfolding excluded_lines splitlines
  excluded_lines-AreLines root w =
      elim (m.is_file (exclude_path m root) w)
        as (λ b. All IsLine (
          if b
          then (elim (m.read_text (exclude_path m root) w) [
            | none ↦ []
            | some t ↦ split_from false [] t
          ])
          else [])) [
            | false ↦ tt
            | true ↦
                elim (m.read_text (exclude_path m root) w)
                  as (λ o. All IsLine (elim o [ none ↦ [] | some t ↦ split_from false [] t ])) [
                    | none ↦ tt
                    | some t ↦ split_from-AreLines false [] t tt
                  ]
          ]

  written_lines :
      (root : Text) (ls : List Text) (w : W)
      → All IsLine ls
      → excluded_lines m root (
          m.write_text (exclude_path m root) (join_lines (ls ++ exclude_line ∷ []) ++ codes "\n") w)
        ≡ ls ++ exclude_line ∷ []
  unfolding excluded_lines splitlines
  written_lines root ls w h =
      let text = join_lines (ls ++ exclude_line ∷ []) ++ codes "\n" in
      let (there, read) = wrote (exclude_path m root) text w in
      rw (there, read) (pushed ls exclude_line h exclude_line-IsLine)

  -- On a disk that gives back what was written, the exclude file keeps the lines that it had, in
  -- their order, has the line of the worktrees as one more behind them if it had none, and a second
  -- call changes nothing.
  pub ensure_worktrees_excluded_lem :
      (root : Text) (w : W)
      → let lines = excluded_lines m root w in
        let v = ensure_worktrees_excluded m root w in
        (excluded_lines m root v
          ≡ (if member exclude_line lines then lines else lines ++ exclude_line ∷ []))
        × (ensure_worktrees_excluded m root v ≡ v)
  unfolding ensure_worktrees_excluded
  ensure_worktrees_excluded_lem root w =
      let lines = excluded_lines m root w in
      elim (Bool-cases (member exclude_line lines)) [
        | inl e ↦ rw (e, e) (refl, refl)
        | inr e ↦
            let text = join_lines (lines ++ exclude_line ∷ []) ++ codes "\n" in
            let u = m.make_dirs (info_dir m root) w in
            let now = written_lines root lines u (excluded_lines-AreLines root w) in
            rw (e, now, member-pushed exclude_line lines) (refl, refl)
      ]
