-- ===== src/App/Confined/Task.antt =====
-- app.py, _safe_dispatch: the whole background task changes nothing outside the project's directory.
use orchestrator_service.Prelude.{
  Text, codes, Bool, true, false, ◌≡◌, refl, ap, ◌∙◌, arith, Option, none, some, is_empty, same,
  same_iff, Bool-cases, Option-cases, inl, inr, not, ◌&&◌, &&-true,
}
use orchestrator_service.Json.{
  Json, text, empty_obj, empty_text, Py, ok, raise, ◌>>=◌, get, get_or, truthy,
}
use orchestrator_service.Workspace.Machine.{Machine, Ran, returned, raised, join_path, dashed}
use orchestrator_service.Workspace.Projects.{
  is_within, project_workspace_path, ensure_project_from_clone, sync_project,
}
use orchestrator_service.App.Handler.{
  matches_slug, replace_slashes, checked_slug, derive_project_slug,
}
use orchestrator_service.App.Branch.{IsSafe, safe_branch-IsSafe}
use orchestrator_service.App.Dispatch.{
  Source, clone_url_of, read_source, Prepared, refused, go_on, state_after, clone_and_sync,
  fill_workspace, prepare_in, prepare_from, prepare_workspace, IssueContext,
  dispatch_context_from_payload, TaskEnd, no_dispatch, task_failed, dispatch, start_agent,
  safe_dispatch,
}
use orchestrator_service.App.Confined.{
  IsHttps, Changes, unchanged, ◌>then>◌, sync_project-Changes, init_project_workspace-Changes,
  ensure_project_from_clone-Changes,
}

-- What a read gives, if it does not raise, is in `P`.
abbrev Gives : {A : Type 0} → (A → Type 0) → Py A → Type 0
Gives P (raise error) = Unit
Gives P (ok value) = P value

>>=-Gives :
    {A B : Type 0} (P : B → Type 0) (read : Py A) (rest : A → Py B)
    → ((value : A) → Gives P (rest value))
    → Gives P (read >>= rest)
>>=-Gives P (raise error) rest h = tt
>>=-Gives P (ok value) rest h = h value

derived-Gives :
    {A B : Type 0} (Q : A → Type 0) (P : B → Type 0) (read : Py A) (rest : A → Py B)
    → Gives Q read
    → ((value : A) → Q value → Gives P (rest value))
    → Gives P (read >>= rest)
derived-Gives Q P (raise error) rest q h = tt
derived-Gives Q P (ok value) rest q h = h value q

abbrev IsSlug : Text → Type 0
IsSlug slug = matches_slug slug ≡ true

checked_slug-IsSlug : (v : Json) → Gives IsSlug (checked_slug v)
unfolding checked_slug
checked_slug-IsSlug (text t) = elim (Bool-cases (matches_slug t)) [
  | inl e ↦ rw e e
  | inr e ↦ rw (e, matches_slug) refl
]
checked_slug-IsSlug _ = tt

derive_project_slug-IsSlug : (payload : Json) → Gives IsSlug (derive_project_slug payload)
unfolding derive_project_slug
derive_project_slug-IsSlug payload =
    >>=-Gives IsSlug (get_or payload (codes "repository") empty_obj) _ (λ repo.
      >>=-Gives IsSlug (get_or repo (codes "full_name") empty_text) _ (λ name.
        elim (Bool-cases (truthy name)) [
          | inl e ↦
              rw e (
                >>=-Gives IsSlug (replace_slashes name) _ (λ slug. checked_slug-IsSlug (text slug)))
          | inr e ↦ rw e (
              >>=-Gives IsSlug (get_or repo (codes "name") (text (codes "default-project"))) _
                checked_slug-IsSlug)
        ]))

abbrev IsChecked : Source → Type 0
IsChecked s = IsSlug s.slug × IsSafe s.default_branch

read_source-IsChecked : (payload : Json) → Gives IsChecked (read_source payload)
unfolding read_source
read_source-IsChecked payload =
    derived-Gives IsSlug IsChecked (derive_project_slug payload) _
      (derive_project_slug-IsSlug payload)
      (λ slug e. >>=-Gives IsChecked (get_or payload (codes "repository") empty_obj) _ (λ repo.
        >>=-Gives IsChecked (get_or repo (codes "clone_url") empty_text) _ (λ url.
          >>=-Gives IsChecked (get repo (codes "default_branch")) _
            (λ branch. (e, safe_branch-IsSafe branch)))))

not-true : (b : Bool) → not b ≡ true → b ≡ false
not-true b h = ground arith

-- An address that is to be cloned is an https address with a host.
abbrev IsClonable : (Text → Option (Text × Text)) → Option Text → Type 0
IsClonable urlparse none = Unit
IsClonable urlparse (some url) = IsHttps urlparse url

clone_url_of-IsClonable :
    (urlparse : Text → Option (Text × Text)) (v : Json)
    → Gives (IsClonable urlparse) (clone_url_of urlparse v)
unfolding clone_url_of
clone_url_of-IsClonable urlparse (text t) = elim (Bool-cases (is_empty t)) [
  | inl e ↦ rw e tt
  | inr e ↦ elim (Option-cases (urlparse t)) [
    | inl unread ↦ rw (e, unread) tt
    | inr ((scheme, netloc), read) ↦
        elim (Bool-cases (same scheme (codes "https") && not (is_empty netloc))) [
          | inl valid ↦
              let (https, host) =
                &&-true (same scheme (codes "https")) (not (is_empty netloc)) valid in
              rw (e, read, valid)
                (record {
                  netloc = netloc;
                  parsed =
                      read ∙ ap (λ s. some (s, netloc)) ((same_iff scheme (codes "https")).0 https);
                  has_host = not-true (is_empty netloc) host;
                })
          | inr invalid ↦ rw (e, read, invalid) tt
        ]
  ]
]
clone_url_of-IsClonable urlparse v = elim (Bool-cases (truthy v)) [
  | inl e ↦ rw e tt
  | inr e ↦ rw e tt
]

-- The directory of the project with this slug.
abbrev pub root_of : Text → Text → Text
root_of base slug = join_path base (dashed slug)

-- What the task leaves of the disk `w`: all of it, or it changes the project of one slug, whose
-- directory is in the workspace and is not all of it.
pub data IsConfined {W : Type 0} (m : Machine W) (urlparse : Text → Option (Text × Text))
    (base : Text) (w v : W) : Type 0 where
  same_disk : v ≡ w → IsConfined m urlparse base w v
  own_project :
      (slug : Text)
      → matches_slug slug ≡ true
      → is_within m base (root_of base slug) w ≡ true
      → same (m.real_path (root_of base slug) w) (m.real_path base w) ≡ false
      → Changes m urlparse base (root_of base slug) w v
      → IsConfined m urlparse base w v

prepared_disk : {W : Type 0} → Prepared W → W
prepared_disk (refused w) = w
prepared_disk (go_on w) = w

-- The disk as the task leaves it.
abbrev pub disk_after : {W : Type 0} → TaskEnd W → W
disk_after (no_dispatch w) = w
disk_after (task_failed error w) = w
disk_after (dispatch context w) = w

module _ {W : Type 0} (m : Machine W) (urlparse : Text → Option (Text × Text)) (base : Text) where
  synced-Changes :
      (root branch : Text)
      → IsSafe branch
      → (w : W) (cloned : Ran Text W) → Changes m urlparse base root w (state_after cloned)
      → Changes m urlparse base root w
          (elim cloned [ returned path v ↦ sync_project m root branch v | raised failure v ↦ v ])
  unfolding state_after
  synced-Changes root branch s w (returned path v) before =
      before >then> sync_project-Changes m urlparse base root branch s v
  synced-Changes root branch s w (raised failure v) before = before

  fill_workspace-Changes :
      (s : Source) (root : Text) (w : W)
      → IsSafe s.default_branch
      → project_workspace_path m base s.slug w ≡ returned root w
      → (url : Py (Option Text)) → Gives (IsClonable urlparse) url
      → Changes m urlparse base root w (fill_workspace m urlparse base s root url w)
  unfolding fill_workspace clone_and_sync
  fill_workspace-Changes s root w safe e (raise error) h = unchanged
  fill_workspace-Changes s root w safe e (ok none) h =
      init_project_workspace-Changes m urlparse base root s.slug w e
  fill_workspace-Changes s root w safe e (ok (some url)) h =
      synced-Changes root s.default_branch safe w
        (ensure_project_from_clone m base s.slug url s.default_branch w)
        (ensure_project_from_clone-Changes m urlparse base root s.slug url s.default_branch w e h
          safe)

  prepare_in-IsConfined :
      (s : Source) (w : W)
      → IsChecked s
      → IsConfined m urlparse base w
          (prepared_disk (prepare_in m urlparse base s (project_workspace_path m base s.slug w)))
  unfolding prepare_in project_workspace_path prepared_disk
  prepare_in-IsConfined s w (slug, safe) =
      let root = root_of base s.slug in
      elim (Bool-cases (is_within m base root w)) [
        | inl inside ↦ elim (Bool-cases (same (m.real_path root w) (m.real_path base w))) [
          | inl whole ↦ rw (inside, whole) (same_disk refl)
          | inr part ↦
              rw (inside, part)
                (own_project s.slug slug inside part (
                  fill_workspace-Changes s root w safe (rw inside refl)
                    (clone_url_of urlparse s.clone_url)
                    (clone_url_of-IsClonable urlparse s.clone_url)))
        ]
        | inr outside ↦ rw outside (same_disk refl)
      ]

  prepare_from-IsConfined :
      (w : W) (read : Py Source)
      → Gives IsChecked read
      → IsConfined m urlparse base w (prepared_disk (prepare_from m urlparse base read w))
  unfolding prepare_from prepared_disk
  prepare_from-IsConfined w (raise error) h = same_disk refl
  prepare_from-IsConfined w (ok s) h = prepare_in-IsConfined s w h

  ended-IsConfined :
      (context : Py (Option IssueContext)) (w : W) (prepared : Prepared W)
      → IsConfined m urlparse base w (prepared_disk prepared)
      → IsConfined m urlparse base w (
          disk_after
            (elim prepared [ refused v ↦ no_dispatch v | go_on v ↦ start_agent context v ]))
  unfolding prepared_disk start_agent
  ended-IsConfined context w (refused v) h = h
  ended-IsConfined (raise error) w (go_on v) h = h
  ended-IsConfined (ok c) w (go_on v) h = h

  -- Whatever the payload, the background task leaves the disk as it was before it starts an agent,
  -- or all that it changes there belongs to one project, whose slug has the form of _SLUG_RE and
  -- whose directory lies in the workspace and is not all of it: it makes the directories of the
  -- workspace, of the project and of its exclude file, writes that file, removes the directory of
  -- the project, clones an https address with a host into it, and runs git init, fetch, checkout
  -- and pull in it, always with a branch that is no flag and no path upwards.
  pub safe_dispatch-IsConfined :
      (repr : Json → Text) (payload : Json) (w : W)
      → IsConfined m urlparse base w (disk_after (safe_dispatch m urlparse repr base payload w))
  unfolding safe_dispatch prepare_workspace
  safe_dispatch-IsConfined repr payload w =
      ended-IsConfined (dispatch_context_from_payload repr payload) w
        (prepare_workspace m urlparse base payload w)
        (prepare_from-IsConfined w (read_source payload) (read_source-IsChecked payload))
