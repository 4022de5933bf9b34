-- ===== src/PipelineRoutes/Saved.antt =====
-- What the routes save can be run.
use scrapeflow.Base.{All}
use scrapeflow.Validator.{Models}
use scrapeflow.PipelineRoutes.{Tables}
use scrapeflow.PipelineRoutes.Requests.{Readable}

-- Every stored version is one that parse_definition reads.
abbrev pub AllReadable : Models → Tables → Type 0
AllReadable m t = All (λ v. Readable m v.definition) t.versions
