-- ===== src/JobRun/Workflow/Ends/Stages.antt =====
-- How the workflow ends, stage by stage.
use scrapeflow.JobRun.Workflow.Ends.{Ends}
