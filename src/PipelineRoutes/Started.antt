-- ===== src/PipelineRoutes/Started.antt =====
-- What create_run promises of the runs that it starts.
use scrapeflow.Base.{
  sym, ℕ, ◌≡◌, refl, true, Option, none, some, All, arith, Option-cases, inl, inr, String,
}
use scrapeflow.Definition.{ParsedDefinition, Read, readable, unreadable, parse_definition}
use scrapeflow.Quota.{admit}
use scrapeflow.Quota.Limits.{HasRoom, admit-HasRoom}
use scrapeflow.PipelineRoutes.{
  Tables, Refusal, Checked, refused, passed, Pipeline, PipelineVersion, version_to_run,
}
use scrapeflow.PipelineRoutes.CreateRun.{
  start_run, Response, refusal, unavailable, started, insert_run, not_started, stored_run,
  workflow_input,
}
use scrapeflow.PipelineRoutes.CheckRun.{
  PipelineRunCreate, Env, parsed_or_refuse, admitted, refuse, input_problems, check_blocks,
  check_keys, owned_keys, llm_keys, key_problems, Startable, check_run,
}
use scrapeflow.PipelineRoutes.Checks.{
  KeyIsGiven, InputsFit, IsOwned, version_to_run-IsOwned, key_problems-KeyIsGiven, owned_keys-owned,
  input_problems-InputsFit,
}
use scrapeflow.PipelineRoutes.ExternalUrls.{
  >>=-when, UrlIsExternal, BaseUrlIsExternal, check_blocks-UrlIsExternal,
  check_keys-BaseUrlIsExternal,
}

-- What a run that may start is.
pub record IsStartable (e : Env) (t : Tables) (user pipeline : ℕ) (body : PipelineRunCreate)
    (s : Startable) : Type 0 where
  pub row : Pipeline × PipelineVersion
  pub owned : IsOwned user pipeline row
  pub ids : (s.pipeline_id ≡ row.0.id) × (s.version_id ≡ row.1.id)
  pub parsed : parse_definition e.models row.1.definition ≡ readable s.parsed
  pub inputs : InputsFit s.parsed.inputs body.inputs
  pub urls : All (λ b. UrlIsExternal e body.inputs b.config) s.parsed.blocks
  pub keys : All (KeyIsGiven s.keys) s.parsed.blocks
  pub keys_owned : All (λ k. k.user_id ≡ user) s.keys
  pub base_urls : All (BaseUrlIsExternal e.resolver) s.keys
  pub room : HasRoom e.settings t.quota user e.now 1 true e.storage_headroom_bytes

parsed_or_refuse-passed :
    (r : Read) (p : ParsedDefinition) → parsed_or_refuse r ≡ passed p → r ≡ readable p
parsed_or_refuse-passed (readable q) p h = ground arith
parsed_or_refuse-passed (unreadable ps) p h = cc

admitted-HasRoom :
    (e : Env) (t : Tables) (user : ℕ)
    → admitted e t user ≡ passed tt
    → HasRoom e.settings t.quota user e.now 1 true e.storage_headroom_bytes
admitted-HasRoom e t user h =
    elim (Option-cases (admit e.settings t.quota user e.now 1 true e.storage_headroom_bytes)) [
      | inl n ↦ (admit-HasRoom e.settings t.quota user e.now 1 true e.storage_headroom_bytes).0 n
      | inr (d, n) ↦ absurd (ground arith)
    ]

pub passed_same :
    {A : Type 0} (a b : A) (P : A → Type 0) → Checked.passed a ≡ Checked.passed b → P a → P b
passed_same a b P h p = let e : a ≡ b = ground arith in rw (sym e) p

pub check_run-IsStartable :
    (e : Env) (t : Tables) (user pipeline : ℕ) (body : PipelineRunCreate) (s : Startable)
    → check_run e t user pipeline body ≡ passed s
    → IsStartable e t user pipeline body s
unfolding check_run
check_run-IsStartable e t user pipeline body s =
    >>=-when (version_to_run t user pipeline body.version) _ (λ row found.
      >>=-when (parsed_or_refuse (parse_definition e.models row.1.definition)) _ (λ parsed read.
        >>=-when (refuse (input_problems parsed.inputs body.inputs)) _ (λ u fit.
          >>=-when (check_blocks e body.inputs parsed.blocks) _ (λ u urls.
            let keys = owned_keys t user (llm_keys parsed.blocks) in
            >>=-when (refuse (key_problems keys parsed.blocks)) _ (λ u given.
              >>=-when (check_keys e.resolver keys) _ (λ u base.
                >>=-when (admitted e t user) _ (λ u room same.
                  passed_same _ s (IsStartable e t user pipeline body) same (record {
                    row = row;
                    owned = version_to_run-IsOwned t user pipeline body.version row found;
                    ids = (refl, refl);
                    parsed = parsed_or_refuse-passed _ parsed read;
                    inputs = input_problems-InputsFit parsed.inputs body.inputs fit;
                    urls = check_blocks-UrlIsExternal e body.inputs parsed.blocks urls;
                    keys = key_problems-KeyIsGiven keys parsed.blocks given;
                    keys_owned = owned_keys-owned user (llm_keys parsed.blocks) t.llm_keys;
                    base_urls = check_keys-BaseUrlIsExternal e.resolver keys base;
                    room = admitted-HasRoom e t user room;
                  }))))))))

-- What create_run does by its checks' answer.
module _ (e : Env) (t : Tables) (user : ℕ) (body : PipelineRunCreate)
    (P : Tables × Response → Type 0) where
  pub start_ind :
      (c : Checked Startable) (start : Option (String × ℕ))
      → ((r : Refusal) → c ≡ refused r → P (t, refusal r))
      → ((s : Startable) (raised : String × ℕ)
          → c ≡ passed s
          → start ≡ some raised
          → P (
              let r' = not_started raised.0 raised.1 (stored_run e user s) in
              (insert_run r' t, unavailable r')))
      → ((s : Startable)
          → c ≡ passed s
          → start ≡ none
          → P (
              let r = stored_run e user s in
              (insert_run r t, started r (workflow_input e body s r))))
      → P (start_run e t user body c start)
  unfolding start_run
  start_ind (refused r) start stops failed done = stops r refl
  start_ind (passed s) none stops failed done = done s refl refl
  start_ind (passed s) (some raised) stops failed done = failed s raised refl refl
