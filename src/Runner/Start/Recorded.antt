-- ===== src/Runner/Start/Recorded.antt =====
-- runner.py: the manifest that a dispatch writes names the run, also after the run has ended.
use orchestrator_service.Prelude.{
  ℕ, Text, codes, Bool, ◌≡◌, refl, ap, inl, inr, Option, none, some, List, ◌∷◌, ◌++◌, Option-cases,
  Any, same,
}
use orchestrator_service.Json.{Json, null, text, obj, Fields, find_field, ok}
use orchestrator_service.Config.{Settings}
use orchestrator_service.Runner.Slug.{dispatch_slug, prompt_stem}
use orchestrator_service.Runner.Completion.{RunEnd, Evidence}
use orchestrator_service.Runner.Manifest.{update, completion_fields, update_run_manifest}
use orchestrator_service.Narrative.Ended.{find_field-set_field}
use orchestrator_service.Runner.Start.{
  write_manifest, Launch, started, parse_workflow_name, prompt_script_invocation, text_or_null,
  repo_json, issue_json, dispatch_manifest, launch, dispatch_to_opencode,
}

-- What a manifest says of the run, under the keys that name it.
module _ (number_of : Text → Json) (l : Launch) (prompt stem : Text) where
  pub record Identifies (m : Fields) : Type 0 where
    pub stem_is : find_field (codes "stem") null m ≡ text stem
    pub repo : find_field (codes "repo_full_name") null m ≡ repo_json l.ctx
    pub issue : find_field (codes "issue_number") null m ≡ issue_json number_of l.ctx
    pub workflow : find_field (codes "workflow") null m ≡ text_or_null (parse_workflow_name prompt)
    pub file : find_field (codes "prompt_file") null m ≡ text (stem ++ codes ".md")
    pub started_at : find_field (codes "started_at") null m ≡ text l.stamp

module _ (number_of : Text → Json) (s : Settings) (l : Launch) (prompt stem : Text) (pid : ℕ) where
  abbrev first_manifest : Fields
  first_manifest = dispatch_manifest number_of s l (parse_workflow_name prompt) stem pid

  dispatch_manifest-Identifies : Identifies number_of l prompt stem first_manifest
  unfolding dispatch_manifest find_field same
  dispatch_manifest-Identifies = record {
    stem_is = refl;
    repo = refl;
    issue = refl;
    workflow = refl;
    file = refl;
    started_at = refl;
  }

-- The end of a run leaves alone what names it.
update-Identifies :
    (number_of : Text → Json) (l : Launch) (prompt stem : Text) (minus : ℕ → Text)
    (sorted : List Text → List Text) (m : Fields) (now : Text) (e : RunEnd) (v : Evidence)
    → Identifies number_of l prompt stem m
    → Identifies number_of l prompt stem (update m (completion_fields minus sorted now e v))
unfolding update completion_fields same
update-Identifies number_of l prompt stem minus sorted m now e v i = record {
  stem_is = simp find_field-set_field i.stem_is;
  repo = simp find_field-set_field i.repo;
  issue = simp find_field-set_field i.issue;
  workflow = simp find_field-set_field i.workflow;
  file = simp find_field-set_field i.file;
  started_at = simp find_field-set_field i.started_at;
}

-- Which steps a launch has that started.
launch-started :
    (number_of : Text → Json) (s : Settings) (l : Launch) (workflow : Option Text)
    (stem other : Text) (has_store : Bool) (args : List Text) (process : Option ℕ)
    → (launch number_of s l workflow stem has_store args process).1 ≡ started other
    → (pid : ℕ) × Any
        (λ step.
          step
          ≡ write_manifest
              (other ++ codes ".manifest.json")
              (dispatch_manifest number_of s l workflow other pid))
        (launch number_of s l workflow stem has_store args process).0
unfolding launch
launch-started number_of s l workflow stem other has_store args none h = cc
launch-started number_of s l workflow stem other has_store args (some pid) h =
    let is : stem ≡ other = cc in
    let written = λ (name : Text).
      write_manifest (name ++ codes ".manifest.json")
        (dispatch_manifest number_of s l workflow name pid) in
    (pid, inr (inl (ap written is)))

-- A dispatch that started writes a manifest beside its prompt that names the run: its stem, the
-- repository and the issue, the workflow of the prompt, the prompt file and the time of the start;
-- and when the end of the run is merged into it, whatever that end, the manifest names it as before.
pub dispatch-Identifies :
    (number_of : Text → Json) (spawn : List Text → Option ℕ) (s : Settings) (prompt : Text)
    (has_store : Bool) (l : Launch) (stem : Text) (minus : ℕ → Text)
    (sorted : List Text → List Text) (now : Text) (e : RunEnd) (v : Evidence)
    → (dispatch_to_opencode number_of spawn s prompt has_store l).1 ≡ started stem
    → (m : Fields) × (final : Fields) × Any
        (λ step. step ≡ write_manifest (stem ++ codes ".manifest.json") m)
        (dispatch_to_opencode number_of spawn s prompt has_store l).0
      × Identifies number_of l prompt stem m
      × (update_run_manifest minus sorted (some (obj m)) now e v ≡ ok final)
      × Identifies number_of l prompt stem final
unfolding dispatch_to_opencode update_run_manifest
dispatch-Identifies number_of spawn s prompt has_store l stem minus sorted now e v h =
    let workflow = parse_workflow_name prompt in
    let made = prompt_stem (dispatch_slug l.ctx workflow l.stamp) l.random in
    let path = s.log_dir ++ (b'/' ∷ (made ++ codes ".md")) in
    elim (Option-cases (prompt_script_invocation s path)) [
      | inl n ↦ cc (rw (n, dispatch_to_opencode) at h)
      | inr (args, n) ↦
          let (pid, written) =
            launch-started number_of s l workflow made stem has_store args (spawn args)
              (rw (n, dispatch_to_opencode) at h) in
          let m = dispatch_manifest number_of s l workflow stem pid in
          let named = dispatch_manifest-Identifies number_of s l prompt stem pid in
          (
            m,
            update m (completion_fields minus sorted now e v),
            rw (n, dispatch_to_opencode) (inr written),
            named,
            refl,
            update-Identifies number_of l prompt stem minus sorted m now e v named,
          )
    ]
