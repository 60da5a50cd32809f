-- ===== src/Tests/Tails.antt =====
-- Files of run logs and the cache, for dashboard.py.
use orchestrator_service.Prelude.{
  ℕ, Text, codes, Bool, true, false, ◌≡◌, refl, Option, none, some, List, [], ◌∷◌, ◌++◌, join_lines,
  arith, ◌<◌, ◌+◌, inl, inr,
}
use orchestrator_service.Runner.Stream.{splitlines}
use orchestrator_service.Dashboard.Tail.{tail_lines, tail_lines_by, tail_lines-whole}
use orchestrator_service.Dashboard.Tail.Lines.{last_of}
use orchestrator_service.Dashboard.Cache.{
  exported, not_installed, is_cached, pages_ttl, generate_pages_bundle,
}
use orchestrator_service.Dashboard.Cache.Recent.{Call, bundle_after, IsExportOf, available-IsRecent}

-- ASCII bytes are their own text.
abbrev ascii : List ℕ → Text
ascii bytes = bytes

ascii_cut : (xs ys : List ℕ) → ascii (xs ++ 10 ∷ ys) ≡ ascii xs ++ 10 ∷ ascii ys
ascii_cut xs ys = refl

abbrev log : List ℕ
log = codes "boot\nread a\nread b\ndone\n"

tail_lines-whole_example : tail_lines ascii log 2 ≡ join_lines (last_of 2 (splitlines (ascii log)))
tail_lines-whole_example = tail_lines-whole ascii ascii_cut log 2 (omega arith)

-- Read by three bytes at a time.
last_two_lines : tail_lines_by ascii 3 log 2 ≡ codes "read b\ndone"
unfolding tail_lines_by orchestrator_service.Prelude.join_with splitlines
last_two_lines = refl

abbrev with_beads : Call
with_beads = record {
  ws = codes "/w/a";
  force = true;
  now = 100;
  world = record { has_beads = λ ws. true; export = λ ws. exported ws };
}

abbrev without_beads : Call
without_beads = record {
  ws = codes "/w/b";
  force = false;
  now = 130;
  world = record { has_beads = λ ws. false; export = λ ws. not_installed };
}

available-IsRecent_example :
    let calls = without_beads ∷ with_beads ∷ [] in
    (t : ℕ) × (without_beads.now < t + pages_ttl) × IsExportOf t (bundle_after calls).pages calls
unfolding generate_pages_bundle is_cached
available-IsRecent_example =
    available-IsRecent without_beads (with_beads ∷ []) ((omega arith, tt), (tt, tt))
      (inl refl, (inr (λ pages e. cc), tt)) refl

-- A project without beads is shown the pages of another.
shown_of_another : (bundle_after (without_beads ∷ with_beads ∷ [])).pages ≡ some (codes "/w/a")
unfolding generate_pages_bundle is_cached
shown_of_another = refl
