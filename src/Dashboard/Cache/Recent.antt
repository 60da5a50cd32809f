-- ===== src/Dashboard/Cache/Recent.antt =====
-- dashboard.py, _generate_pages_bundle: what the bundle holds when a call says that it is available.
use orchestrator_service.Prelude.{
  ℕ, ◌+◌, ◌≤◌, ◌<◌, Text, Bool, true, false, ◌≡◌, ◌≢◌, ◌⊎◌, refl, inl, inr, Option, none, some,
  List, [], ◌∷◌, All, Bool-cases, arith,
}
use orchestrator_service.Dashboard.Cache.{
  pages_ttl, Export, exported, not_installed, export_error, PagesWorld, Bundle, is_cached,
  export_pages, generate_pages_bundle,
}

-- A call, with its time and the world that it meets.
pub record Call : Type 0 where
  pub ws : Text
  pub force : Bool
  pub now : ℕ
  pub world : PagesWorld

abbrev pub run : Call → Bundle → Option Text × Bundle
run c = generate_pages_bundle c.ws c.force c.now c.world

-- What calls leave of a new bundle; the last call comes first.
abbrev pub bundle_after : List Call → Bundle
bundle_after [] = record { made_at = none; pages = none }
bundle_after (c ∷ cs) = (run c (bundle_after cs)).1

-- The times of the calls do not go back.
abbrev pub AreInOrder : List Call → Type 0
AreInOrder [] = Unit
AreInOrder (c ∷ cs) = All (λ (d : Call). d.now ≤ c.now) cs × AreInOrder cs

-- The call does not force an export that fails.
abbrev pub IsCalm : Call → Type 0
IsCalm c = (c.force ≡ false) ⊎ ((pages : Text) → c.world.export c.ws ≢ export_error pages)

-- The export of the call, of the workspace of its own project, wrote these pages at the time `t`.
abbrev pub HasExported : ℕ → Option Text → Call → Type 0
HasExported t pages d =
    (d.now ≡ t)
    × (d.world.has_beads d.ws ≡ true)
    × (written : Text) × (d.world.export d.ws ≡ exported written)
    × (pages ≡ some written)

-- One of the calls did.
abbrev pub IsExportOf : ℕ → Option Text → List Call → Type 0
IsExportOf t pages [] = ⊥
IsExportOf t pages (d ∷ cs) = HasExported t pages d ⊎ IsExportOf t pages cs

-- The entry of the cache has run out, or one of the calls exported at its time what is there.
record IsTracked (cs : List Call) (now : ℕ) (b : Bundle) : Type 0 where
  entry : (t : ℕ) → b.made_at ≡ some t → (t + pages_ttl ≤ now) ⊎ IsExportOf t b.pages cs

later-IsTracked :
    (c : Call) (cs : List Call) (now : ℕ) (b : Bundle)
    → now ≤ c.now
    → IsTracked cs now b
    → IsTracked (c ∷ cs) c.now b
later-IsTracked c cs now b l h = record {
  entry = λ t e. elim (h.entry t e) [ inl out ↦ inl (omega arith) | inr there ↦ inr (inr there) ];
}

is_cached-young :
    (force : Bool) (now : ℕ) (made_at : Option ℕ)
    → is_cached force now made_at ≡ true
    → (t : ℕ) × (made_at ≡ some t) × (now < t + pages_ttl)
unfolding is_cached
is_cached-young force now none h = cc
is_cached-young force now (some t) h = (t, refl, ground arith)

is_cached-old : (now t : ℕ) → is_cached false now (some t) ≡ false → t + pages_ttl ≤ now
unfolding is_cached
is_cached-old now t h = ground arith

module _ (c : Call) (cs : List Call) (now : ℕ) (b : Bundle) (l : now ≤ c.now)
    (h : IsTracked cs now b) where
  -- An entry that the call passes over has run out, if the call does not force.
  out_of_date :
      c.force ≡ false
      → is_cached c.force c.now b.made_at ≡ false
      → (t : ℕ) → b.made_at ≡ some t
      → t + pages_ttl ≤ c.now
  out_of_date calm e t made = is_cached-old c.now t (rw (calm, made) at e)

  export_pages-IsTracked :
      IsCalm c
      → is_cached c.force c.now b.made_at ≡ false
      → c.world.has_beads c.ws ≡ true
      → (end : Export) → c.world.export c.ws ≡ end
      → IsTracked (c ∷ cs) c.now (export_pages c.now end b).1
  unfolding export_pages
  export_pages-IsTracked calm e beads (exported pages) ended = record {
    entry = λ t made. inr (inl (cc, beads, pages, ended, refl));
  }
  export_pages-IsTracked calm e beads not_installed ended = later-IsTracked c cs now b l h
  export_pages-IsTracked (inl free) e beads (export_error pages) ended = record {
    entry = λ t made. inl (out_of_date free e t made);
  }
  export_pages-IsTracked (inr safe) e beads (export_error pages) ended = absurd (safe pages ended)

  run-IsTracked : IsCalm c → IsTracked (c ∷ cs) c.now (run c b).1
  unfolding generate_pages_bundle
  run-IsTracked calm = elim (Bool-cases (is_cached c.force c.now b.made_at)) [
    | inl e ↦ rw e (later-IsTracked c cs now b l h)
    | inr e ↦ elim (Bool-cases (c.world.has_beads c.ws)) [
      | inl beads ↦ rw (e, beads) (export_pages-IsTracked calm e beads (c.world.export c.ws) refl)
      | inr bare ↦ rw (e, bare) (later-IsTracked c cs now b l h)
    ]
  ]

  export_pages-young :
      (end : Export)
      → (export_pages c.now end b).0 ≡ none
      → (t : ℕ) × ((export_pages c.now end b).1.made_at ≡ some t) × (c.now < t + pages_ttl)
  unfolding export_pages
  export_pages-young (exported pages) ok = (c.now, refl, omega arith)
  export_pages-young not_installed ok = cc
  export_pages-young (export_error pages) ok = cc

  -- A call that says that the bundle is available leaves an entry that has not run out.
  available-young :
      (run c b).0 ≡ none → (t : ℕ) × ((run c b).1.made_at ≡ some t) × (c.now < t + pages_ttl)
  unfolding generate_pages_bundle
  available-young ok = elim (Bool-cases (is_cached c.force c.now b.made_at)) [
    | inl e ↦ rw e (is_cached-young c.force c.now b.made_at e)
    | inr e ↦ elim (Bool-cases (c.world.has_beads c.ws)) [
      | inl beads ↦
          rw (e, beads)
            (export_pages-young (c.world.export c.ws) (rw (e, beads, generate_pages_bundle) at ok))
      | inr bare ↦ cc (rw (e, bare, generate_pages_bundle) at ok)
    ]
  ]

  available-IsExportOf :
      IsCalm c
      → (run c b).0 ≡ none
      → (t : ℕ) × (c.now < t + pages_ttl) × IsExportOf t (run c b).1.pages (c ∷ cs)
  available-IsExportOf calm ok =
      let (t, made, young) = available-young ok in
      elim ((run-IsTracked calm).entry t made) [
        | inl out ↦ absurd (omega arith)
        | inr there ↦ (t, young, there)
      ]

waited-IsTracked :
    (cs : List Call) (now later : ℕ) (b : Bundle)
    → now ≤ later
    → IsTracked cs now b
    → IsTracked cs later b
waited-IsTracked cs now later b l h = record {
  entry = λ t e. elim (h.entry t e) [ inl out ↦ inl (omega arith) | inr there ↦ inr there ];
}

bundle_after-IsTracked :
    (cs : List Call) (now : ℕ)
    → AreInOrder cs
    → All IsCalm cs
    → All (λ (d : Call). d.now ≤ now) cs
    → IsTracked cs now (bundle_after cs)
bundle_after-IsTracked [] now order calm past = record { entry = λ t e. cc }
bundle_after-IsTracked (c ∷ cs) now (before, order) (calm, calms) (l, past) =
    waited-IsTracked (c ∷ cs) c.now now _ l (
      run-IsTracked c cs c.now (bundle_after cs) (omega arith)
        (bundle_after-IsTracked cs c.now order calms before) calm)

-- If the times of the calls do not go back, and no forced export fails, then a call that says that
-- the bundle is available leaves in the bundle's one directory the pages that this call, or one less
-- than a minute before it, exported of its own project, whichever project that was.
pub available-IsRecent :
    (c : Call) (cs : List Call)
    → AreInOrder (c ∷ cs)
    → All IsCalm (c ∷ cs)
    → (run c (bundle_after cs)).0 ≡ none
    → (t : ℕ) × (c.now < t + pages_ttl) × IsExportOf t (bundle_after (c ∷ cs)).pages (c ∷ cs)
available-IsRecent c cs (before, order) (calm, calms) =
    available-IsExportOf c cs c.now (bundle_after cs) (omega arith)
      (bundle_after-IsTracked cs c.now order calms before) calm
