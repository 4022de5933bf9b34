-- ===== src/Lib.antt =====
-- ScrapeFlow: the core of a multi-tenant scraping service, modelled from its Python code.
--
-- The API inserts a run, a pipeline run or a crawl and starts a Temporal workflow for it. The
-- workflow's activities write what happens back to Postgres (the mirrors), charge what is stored
-- to its owner (the ledger and the quota counters), and queue webhooks, while the API may cancel
-- the same rows at any time. Redis scripts limit a user's requests and the scrapes of a host. The
-- modules follow these parts; each transaction is one function from a state to a state, and the
-- orders in which transactions can commit are lists of them.
--
--   Base            the shared names: Boolean tests, lists over the native numbers
--   Calendar        the month of a time, as api/app/core/quota.py computes it
--   Quota           the meters of api/app/core/quota.py: quota_check, admit, the storage counter;
--                   Quota.Usage on the counter, Quota.Limits on submissions
--   Ledger          api/app/core/ledger.py and api/app/core/storage.py: record_object,
--                   release_objects and the selections of rows; Ledger.Balance on the counters
--   PipelineMirror  api/app/workflows/activities/db.py, api/app/core/pipeline_status.py and
--                   cancel_run of api/app/routers/pipelines.py; the mirrors are in Mirrors;
--                   Status, Consistent, Charge
--   Catalog         api/app/pipelines/catalog.py: the block types and their time budgets
--   Validator       api/app/pipelines/validator.py: the problems in order (Rules), what a valid
--                   definition is (Chain), and that validate accepts no other (Parsed, Accepts);
--                   ChainRules are the rules on the chain
--   Temporal        how an activity call ends for a workflow, and the calls of the app DB
--   WebhookBlock    api/app/workflows/activities/webhook.py: one attempt, and the attempts
--   PipelineWorkflow api/app/workflows/pipeline.py, over PipelineMirror and WebhookBlock: Calls
--                   (what it meets), Perform (one block's activity); Refines and Transactions (it
--                   writes by the mirrors only), Produces, Ends, Answers
--   JobRun          api/app/workflows/activities/job_runs.py (Running until the end of a run),
--                   with cancel_active_runs and fail_unstarted_run of api/app/core/dispatch.py;
--                   JobRun.Workflow is api/app/workflows/job.py, and JobRun.Workflow.Ends how it
--                   ends
--   Crawl           api/app/workflows/activities/crawls.py, api/app/core/crawl_progress.py and
--                   the crawl's cancel and failed start of api/app/core/dispatch.py: Gate (the
--                   rules of admission), Frontier (admit, vet, claim), Pages (record, finish),
--                   Lane (their orders)
--   Batch           api/app/models/batch.py, api/app/core/batch_progress.py and finish_batch of
--                   api/app/workflows/activities/batches.py, with the batch's cancel and failed
--                   start of api/app/core/dispatch.py: Items (the rows), Counted, Closed;
--                   Batch.Workflow is api/app/workflows/batch.py: InFlight, Ends, Progress
--   Definition      api/app/pipelines/definition.py; Definition.RoundTrip reads what validate
--                   stored
--   Security        api/app/core/security.py: the addresses that a request may not reach
--   PipelineRoutes  api/app/routers/pipelines.py: create_run in CheckRun and CreateRun, with
--                   ExternalUrls, Checks, Started, Answers, Workflow (what its workflow gets); the
--                   saves of a definition in Definitions, with Requests, Pinned,
--                   StoredSecrets, Saved
--   CrawlWorkflow   api/app/workflows/crawl.py over Crawl: one page's calls (Pages, Sitemaps),
--                   the claim loop (Loop), how they interleave (Steps); Fits, Bounded, Refines,
--                   Ends
--   ValidateRules   llm-worker/worker/rules.py: Checks, with Order (the compare rules), Meaning
--                   and Holds; the JSON pointers (Pointer) with Resolves, RoundTrip
--   ScheduledJob    api/app/workflows/activities/schedules.py and the loop of
--                   api/app/workflows/scheduled_job.py: Once, Wait
--   WebhookDelivery api/app/workflows/activities/webhook_deliveries.py and the loop of
--                   api/app/workflows/webhook_delivery.py
--   RateLimit       api/app/core/rate_limit.py with its two Lua scripts
--   HostLimiter     api/app/core/host_limiter.py with its Lua script
--   Robots          playwright-worker/worker/robots.py
--
-- A record holds the columns that the code reads or writes; a function has the name of the Python
-- function, and takes the time it reads as `now`. Uuids, object keys, paths and URLs are numbers,
-- since the code only compares them. A row lock is the order of the list: a transaction is one
-- step. Code that is not in the repository is a parameter: MinIO (Ledger.Minio), the receiver of
-- a webhook and the address check (WebhookDelivery.Reply), the URL functions and the resolver
-- (Crawl.Gate.UrlLibrary), and, for the job workflow, how a scrape, an LLM call and an activity
-- call end (JobRun.Workflow.Env). For the validator, pydantic and jsonschema are
-- Validator.Models; for the pipeline workflow, how activities and waits end is
-- PipelineWorkflow.Calls.Env. For the address check the resolver and ipaddress are
-- Security.Resolver; for create_run the start of a workflow is in PipelineRoutes.CheckRun.Env;
-- for the rules of a Validate block json.loads and jsonschema are ValidateRules.Checks.Library.
--
-- Loops are structural recursion over lists. Two run on fuel, with a theorem that it is enough:
-- WebhookDelivery.deliver on the attempts left to the limit, and ScheduledJob.run on 5762 calls,
-- which 15 seconds apart cover the 24 hours of the wait.
--
-- Not modelled: authentication, the ciphertexts of block configs' secrets, the routers of jobs,
-- crawls and batches besides the cancels and the failed starts, the wait for a host slot, the sweep
-- of overdue webhooks, the workers besides robots.txt and the rules of a Validate block, the MCP
-- server, the frontend and the Go worker. Log lines, metrics, payload texts and signatures are left
-- out of what is modelled, and so are the SQL and the Redis protocol.
mod Base
pub mod Calendar
pub mod Quota
pub mod Ledger
pub mod PipelineMirror
pub mod JobRun
pub mod WebhookDelivery
pub mod RateLimit
pub mod Crawl
pub mod HostLimiter
pub mod Robots
pub mod Catalog
pub mod Validator
pub mod Temporal
pub mod WebhookBlock
pub mod PipelineWorkflow
pub mod Batch
pub mod ScheduledJob
pub mod Security
pub mod PipelineRoutes
pub mod CrawlWorkflow
pub mod ValidateRules
pub mod Definition
