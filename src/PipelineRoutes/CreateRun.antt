-- ===== src/PipelineRoutes/CreateRun.antt =====
-- create_run (api/app/routers/pipelines.py). The texts of the problems are left out; the secrets,
-- the credentials and the encrypted keys reach the workflow unread. The insert commits under the
-- lock that admit took, so the checks and the insert are one step.
use Prim.Native.String.{◌++◌ as ◌<>◌}
use scrapeflow.Base.{
  ℕ, suc, Bool, true, not, ◌||◌, Option, none, some, List, [], ◌∷◌, ◌++◌, String, map, any, all,
  ◌==◌,
}
use scrapeflow.Catalog.{Config, scrape_config}
use scrapeflow.Definition.{run_budget_seconds}
use scrapeflow.PipelineMirror.Mirrors.{RunStatus, BlockStatus, PipelineRun, PipelineRunBlock}
use scrapeflow.PipelineWorkflow.Calls.{RunBlock, PipelineRunInput}
use scrapeflow.PipelineRoutes.{StoredRun, Tables, Refusal, Checked, refused, passed}
use scrapeflow.PipelineRoutes.CheckRun.{
  Env, Inputs, PipelineRunCreate, Startable, check_run, has_key, has_name, names_of,
}

abbrev pub new_run : ℕ → PipelineRun
new_run user = record {
  user_id = user;
  status = RunStatus.running;
  cancel_requested_at = none;
  result_path = none;
  error = none;
  finished_at = none;
}

abbrev pub new_block : ℕ → RunBlock → PipelineRunBlock
new_block id b = record {
  id = id;
  block_id = b.id;
  status = BlockStatus.pending;
  input_ref = none;
  output_ref = none;
  error = none;
  started_at = none;
  finished_at = none;
}

abbrev pub new_blocks : (ℕ → ℕ) → ℕ → List RunBlock → List PipelineRunBlock
new_blocks ids position [] = []
new_blocks ids position (b ∷ blocks) =
    new_block (ids position) b ∷ new_blocks ids (suc position) blocks

unfoldable pub stored_run : Env → ℕ → Startable → StoredRun
stored_run e user s = record {
  id = e.run_id;
  pipeline_id = s.pipeline_id;
  pipeline_version_id = s.version_id;
  run = new_run user;
  blocks = new_blocks e.block_id 0 s.parsed.blocks;
}

abbrev pub is_given : Inputs → Option (List ℕ) → Bool
is_given inputs none = true
is_given inputs (some name) = has_name (names_of inputs) name

-- input.inputs[binding.input] is there.
abbrev pub bound : Env → Inputs → Config → Bool
bound e inputs (scrape_config c) = is_given inputs (e.binding c.url)
bound e inputs _ = true

-- What the workflow is started with.
unfoldable pub workflow_input : Env → PipelineRunCreate → Startable → StoredRun → PipelineRunInput
unfolding run_budget_seconds
workflow_input e body s r = record {
  blocks = s.parsed.blocks;
  time_budget_seconds = run_budget_seconds s.parsed;
  has_url = λ id. all (λ b. not (b.id == id) || bound e body.inputs b.config) s.parsed.blocks;
  has_artifact = λ id. any (λ b. b.block_id == id) r.blocks;
  has_llm_key = has_key s.keys;
}

abbrev pub set_skipped : PipelineRunBlock → PipelineRunBlock
set_skipped b = record b { status = BlockStatus.skipped }

-- The rows after a start that raised.
unfoldable pub not_started : String → ℕ → StoredRun → StoredRun
not_started error now r = record r {
  run = record r.run {
    status = RunStatus.failed;
    error = some ("could not start workflow: " <> error);
    finished_at = some now;
  };
  blocks = map set_skipped r.blocks;
}

-- What the request answers.
pub data Response : Type 0 where
  refusal : Refusal → Response
  -- 503, with the run's row
  unavailable : StoredRun → Response
  -- 202, with the run's row and the workflow's input
  started : StoredRun → PipelineRunInput → Response

abbrev pub insert_run : StoredRun → Tables → Tables
insert_run r t = record t { runs = t.runs ++ (r ∷ []) }

-- From the rows on.
unfoldable pub start_run :
    Env
    → Tables
    → ℕ
    → PipelineRunCreate
    → Checked Startable
    → Option (String × ℕ)
    → Tables × Response
unfolding stored_run workflow_input not_started
start_run e t user body (refused r) start = (t, refusal r)
start_run e t user body (passed s) none =
    let r = stored_run e user s in (insert_run r t, started r (workflow_input e body s r))
start_run e t user body (passed s) (some raised) =
    let r = not_started raised.0 raised.1 (stored_run e user s) in (insert_run r t, unavailable r)

unfoldable pub create_run : Env → Tables → ℕ → ℕ → PipelineRunCreate → Tables × Response
unfolding check_run start_run
create_run e t user pipeline body =
    start_run e t user body (check_run e t user pipeline body) e.start_workflow
