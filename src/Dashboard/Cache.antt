-- ===== src/Dashboard/Cache.antt =====
-- dashboard.py: the cache of results with a time to live, and the bundle of static pages.
pub mod Recent
use orchestrator_service.Prelude.{
  ℕ, ◌-◌, Text, codes, Bool, true, false, not, ◌&&◌, Option, none, some, ltb, if◌then◌else◌, Dict,
  lookup, insert,
}

-- _CACHE_TTL and _PAGES_TTL, in seconds
abbrev pub cache_ttl : ℕ
cache_ttl = 5

abbrev pub pages_ttl : ℕ
pages_ttl = 60

-- The value of a key that is younger than `ttl`.
unfoldable pub fresh {ℓ} : {V : Type ℓ} → ℕ → ℕ → Text → Dict (ℕ × V) → Option V
fresh ttl now key cache = elim (lookup key cache) [
  | none ↦ none
  | some (ts, value) ↦ if ltb (now - ts) ttl then some value else none
]

-- _cached: `made` is what the factory returns, if it is called; what is returned, and the cache.
unfoldable pub cached {ℓ} : {V : Type ℓ} → ℕ → Text → V → Dict (ℕ × V) → V × Dict (ℕ × V)
unfolding fresh
cached now key made cache = elim (fresh cache_ttl now key cache) [
  | some value ↦ (value, cache)
  | none ↦ (made, insert key (now, made) cache)
]

-- How `bvr --export-pages` ends, and what it leaves in the directory of the bundle.
pub data Export : Type 0 where
  exported export_error : Text → Export
  not_installed : Export

-- What _generate_pages_bundle reads of the world, by workspace: whether there is a `.beads`, and how the
-- export would end.
pub record PagesWorld : Type 0 where
  pub has_beads : Text → Bool
  pub export : Text → Export

-- The entry "pages_bundle" of the cache, and what the one directory of the bundle holds.
pub record Bundle : Type 0 where
  pub made_at : Option ℕ
  pub pages : Option Text

-- The error text, none where a usable bundle is available; and what is left.
unfoldable pub is_cached : Bool → ℕ → Option ℕ → Bool
is_cached force now none = false
is_cached force now (some ts) = not force && ltb (now - ts) pages_ttl

unfoldable pub export_pages : ℕ → Export → Bundle → Option Text × Bundle
export_pages now (exported pages) b = (none, record { made_at = some now; pages = some pages })
export_pages now not_installed b = (some (codes "bvr_not_installed"), b)
export_pages now (export_error pages) b =
    (some (codes "export_failed"), record b { pages = some pages })

unfoldable pub generate_pages_bundle : Text → Bool → ℕ → PagesWorld → Bundle → Option Text × Bundle
unfolding is_cached export_pages
generate_pages_bundle ws force now w b =
    if is_cached force now b.made_at
    then (none, b)
    else if w.has_beads ws
    then export_pages now (w.export ws) b
    else (some (codes "not_initialized"), b)
