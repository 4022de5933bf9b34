-- ===== src/PipelineRoutes/Requests.antt =====
-- Requests of the pipeline routes one after the other, and what each does to the tables. An update
-- comes with the tables that it read, which may be older than those it commits to.
use scrapeflow.Base.{
  ℕ, ◌≡◌, refl, Bool, true, false, not, Option, none, some, List, [], ◌∷◌, ◌++◌, filter, any, All,
  arith, leb, count, ◌&&◌, ◌==◌, if_ind, if◌then◌else◌,
}
use scrapeflow.Validator.{PipelineDefinition, Models}
use scrapeflow.Validator.Rules.{
  StoredDefinition, ValidatedPipeline, Verdict, accepted, validate_definition,
}
use scrapeflow.Definition.{ParsedDefinition, parse_definition, readable}
use scrapeflow.Definition.RoundTrip.{parsed_of}
use scrapeflow.PipelineRoutes.StoredSecrets.{NullsBack, parse-store_secrets}
use scrapeflow.PipelineRoutes.{
  Pipeline, PipelineVersion, StoredRun, Tables, Checked, refused, passed, owned_pipeline, or_refuse,
  not_found,
}
use scrapeflow.PipelineRoutes.CreateRun.{create_run, Response, insert_run}
use scrapeflow.PipelineRoutes.CheckRun.{Env, PipelineRunCreate, check_run, owned_keys, check_keys}
use scrapeflow.PipelineRoutes.ExternalUrls.{>>=-when}
use scrapeflow.PipelineRoutes.Started.{passed_same, start_ind}
use scrapeflow.PipelineRoutes.Definitions.{
  SaveEnv, create_pipeline, PipelineUpdate, plan_update, commit_update, delete_pipeline, Plan,
  prepare_definition, prepare_valid, insert_pipeline, valid_or_refuse, or_raise, config_keys,
  check_urls, new_versions, plan_version, has_runs, insert_prepared, delete_owned, name_taken,
  is_unchanged, renaming_taken, version_taken,
}

pub data Request : Type 0 where
  create : SaveEnv → ℕ → ℕ → PipelineDefinition → Request
  -- with the tables that it read
  update : SaveEnv → Tables → ℕ → ℕ → PipelineUpdate → Request
  delete : ℕ → ℕ → Request
  start : Env → ℕ → ℕ → PipelineRunCreate → Request

abbrev commit_plan : SaveEnv → ℕ → Checked Plan → Tables → Tables
commit_plan e user (refused r) t = t
commit_plan e user (passed plan) t = (commit_update e user plan t).0

unfoldable pub request : Models → Request → Tables → Tables
unfolding create_pipeline plan_update commit_update delete_pipeline create_run
request m (create e user name d) t = (create_pipeline m e t user name d).0
request m (update e read user id body) t = commit_plan e user (plan_update m e read user id body) t
request m (delete user id) t = (delete_pipeline t user id).0
request m (start e user id body) t = (create_run e t user id body).0

unfoldable pub requests : Models → List Request → Tables → Tables
unfolding request
requests m [] t = t
requests m (r ∷ rs) t = requests m rs (request m r t)

-- A worker can read the definition.
abbrev pub Readable : Models → StoredDefinition → Type 0
Readable m d = (p : ParsedDefinition) × (parse_definition m d ≡ readable p)

accepted_when :
    (v : Verdict) (p : ValidatedPipeline) → valid_or_refuse v ≡ passed p → v ≡ accepted p
accepted_when (Verdict.accepted q) p h = let e : q ≡ p = ground arith in rw e refl
accepted_when (Verdict.refused problems) p h = cc

module _ (m : Models) (back : NullsBack m) (e : SaveEnv) (t : Tables) (user : ℕ) where
  prepared :
      (d : PipelineDefinition) (p : ValidatedPipeline) (stored : StoredDefinition)
      → validate_definition m e.limits d ≡ accepted p
      → prepare_valid e t user p ≡ passed stored
      → Readable m stored
  unfolding prepare_valid
  prepared d p stored ok =
      let keys = owned_keys t user (config_keys p.blocks) in
      >>=-when (or_raise _ not_found) _ (λ u all_owned.
        >>=-when (check_urls e p.blocks) _ (λ u urls.
          >>=-when (check_keys e.resolver keys) _ (λ u base same.
            passed_same _ stored (Readable m) same
              (parsed_of d p, parse-store_secrets m e.limits d p back ok))))

  pub prepare-Readable :
      (d : PipelineDefinition) (stored : StoredDefinition)
      → prepare_definition m e t user d ≡ passed stored
      → Readable m stored
  unfolding prepare_definition
  prepare-Readable d stored =
      >>=-when (valid_or_refuse (validate_definition m e.limits d)) _
        (λ p ok. prepared d p stored (accepted_when _ p ok))

if_when :
    {A : Type 0} (P : A → Type 0) (b : Bool) (x y : A)
    → (b ≡ true → P x)
    → (b ≡ false → P y)
    → P (if b then x else y)
if_when P true x y p q = p refl
if_when P false x y p q = q refl

-- What is prepared to be stored is Ok.
abbrev pub Prepares : Models → (StoredDefinition → Type 0) → Type 0
Prepares m Ok =
    (e : SaveEnv) (t : Tables) (user : ℕ) (d : PipelineDefinition) (stored : StoredDefinition)
    → prepare_definition m e t user d ≡ passed stored
    → Ok stored

module _ (m : Models) (Ok : StoredDefinition → Type 0) (prepares : Prepares m Ok) (e : SaveEnv)
    (t : Tables) (user : ℕ) where
  planned :
      (v : PipelineVersion) (id : ℕ) (d : Option PipelineDefinition)
      (w : Option (ℕ × StoredDefinition))
      → plan_version m e t user v d ≡ passed w
      → All (λ v. Ok v.definition) (new_versions e id w)
  planned v id none w h =
      passed_same none w (λ w. All (λ v. Ok v.definition) (new_versions e id w)) h tt
  planned v id (some d) w h =
      >>=-when (prepare_definition m e t user d) _
        (λ stored ok same.
          passed_same _ w (λ w. All (λ v. Ok v.definition) (new_versions e id w)) same
            (if_ind (λ w. All (λ v. Ok v.definition) (new_versions e id w))
              (e.same stored v.definition) _ _ tt (prepares e t user d stored ok, tt)))
        h

  pub plan-Ok :
      (id : ℕ) (body : PipelineUpdate) (plan : Plan)
      → plan_update m e t user id body ≡ passed plan
      → All (λ v. Ok v.definition) (new_versions e plan.pipeline_id plan.version)
  unfolding plan_update
  plan-Ok id body plan = >>=-when (or_refuse not_found (owned_pipeline t user id)) _ (λ row found.
      >>=-when (plan_version m e t user row.1 body.definition) _ (λ w made same.
        passed_same _ plan
          (λ plan. All (λ v. Ok v.definition) (new_versions e plan.pipeline_id plan.version)) same
          (planned row.1 row.0.id body.definition w made)))

-- A request leaves the tables, or adds versions that are Ok, or drops the versions of a
-- pipeline without runs, or adds a run.
module _ (m : Models) (Ok : StoredDefinition → Type 0) (prepares : Prepares m Ok) (t : Tables)
    (P : Tables → Type 0) (stays : P t)
    (writes : (ps : List Pipeline) (vs : List PipelineVersion)
      → All (λ v. Ok v.definition) vs
      → P (record t { pipelines = ps; versions = t.versions ++ vs }))
    (drops : (id : ℕ) (ps : List Pipeline)
      → has_runs id t ≡ false
      → P (record t {
        pipelines = ps;
        versions = filter (λ v. not (v.pipeline_id == id)) t.versions;
      }))
    (keeps : (ps : List Pipeline) → P (record t { pipelines = ps }))
    (runs : (r : StoredRun) → P (insert_run r t)) where
  abbrev Holds : Tables × Checked (Unit {0}) → Type 0
  Holds v = P v.0

  insert_ind :
      (e : SaveEnv) (user name : ℕ) (d : StoredDefinition)
      → Ok d
      → Holds (insert_pipeline e user name d t)
  unfolding insert_pipeline
  insert_ind e user name d r =
      if_ind Holds (name_taken user e.pipeline_id name t.pipelines) _ _ stays (writes _ _ (r, tt))

  save_ind :
      (e : SaveEnv) (user name : ℕ) (c : Checked StoredDefinition)
      → ((d : StoredDefinition) → c ≡ passed d → Ok d)
      → Holds (insert_prepared e user name c t)
  unfolding insert_prepared
  save_ind e user name (refused r) h = stays
  save_ind e user name (passed d) h = insert_ind e user name d (h d refl)

  create_ind :
      (e : SaveEnv) (user name : ℕ) (d : PipelineDefinition)
      → Holds (create_pipeline m e t user name d)
  unfolding create_pipeline
  create_ind e user name d =
      let held = count (λ p. (p.user_id == user) && not p.is_deleted) t.pipelines in
      if_ind Holds (leb e.max_pipelines_per_user held) _ _ stays
        (save_ind e user name (prepare_definition m e t user d) (prepares e t user d))

  dropped_ind : (id : ℕ) (row : Option (Pipeline × PipelineVersion)) → Holds (delete_owned t id row)
  unfolding delete_owned
  dropped_ind id none = stays
  dropped_ind id (some row) = if_when Holds (has_runs id t) _ _ (λ h. keeps _) (drops id _)

  commit_ind :
      (e : SaveEnv) (user : ℕ) (plan : Plan)
      → All (λ v. Ok v.definition) (new_versions e plan.pipeline_id plan.version)
      → Holds (commit_update e user plan t)
  unfolding commit_update
  commit_ind e user plan ok = if_ind Holds (is_unchanged plan.name plan.version) _ _ stays (
      if_ind Holds (not (any (λ p. p.id == plan.pipeline_id) t.pipelines)) _ _ stays (
        if_ind Holds (renaming_taken user plan.pipeline_id plan.name t.pipelines) _ _ stays (
          if_ind Holds (version_taken plan.pipeline_id plan.version t.versions) _ _ stays
            (writes _ _ ok))))

  update_ind :
      (e : SaveEnv) (user : ℕ) (c : Checked Plan)
      → ((plan : Plan)
          → c ≡ passed plan
          → All (λ v. Ok v.definition) (new_versions e plan.pipeline_id plan.version))
      → P (commit_plan e user c t)
  update_ind e user (refused r) ok = stays
  update_ind e user (passed plan) ok = commit_ind e user plan (ok plan refl)

  abbrev Started : Tables × Response → Type 0
  Started v = P v.0

  start_run_ind :
      (e : Env) (user id : ℕ) (body : PipelineRunCreate) → Started (create_run e t user id body)
  unfolding create_run
  start_run_ind e user id body =
      start_ind e t user body Started (check_run e t user id body) e.start_workflow (λ r h. stays)
        (λ s raised h k. runs _) (λ s h k. runs _)

  pub request_ind : (r : Request) → P (request m r t)
  unfolding request delete_pipeline
  request_ind (create e user name d) = create_ind e user name d
  request_ind (update e read user id body) =
      update_ind e user (plan_update m e read user id body)
        (plan-Ok m Ok prepares e read user id body)
  request_ind (delete user id) = dropped_ind id (owned_pipeline t user id)
  request_ind (start e user id body) = start_run_ind e user id body
