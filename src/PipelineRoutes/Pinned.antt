-- ===== src/PipelineRoutes/Pinned.antt =====
-- The definition that a run was started with stays as it was.
use scrapeflow.Base.{
  ℕ, ◌≡◌, ◌⊎◌, refl, sym, Bool-cases, Bool, true, false, not, List, [], ◌∷◌, ◌++◌, filter, any,
  arith, ◌==◌, inl, inr,
}
use scrapeflow.Validator.{Models}
use scrapeflow.PipelineRoutes.{PipelineVersion, StoredRun, Tables}
use scrapeflow.PipelineRoutes.Definitions.{has_runs}
use scrapeflow.PipelineRoutes.Requests.{Request, request, requests, request_ind}

abbrev Has : {A : Type 0} → A → List A → Type 0
Has x [] = ⊥
Has x (y ∷ ys) = (x ≡ y) ⊎ Has x ys

Has-append : {A : Type 0} (x : A) (xs ys : List A) → Has x xs → Has x (xs ++ ys)
Has-append x [] ys h = elim h [ ]
Has-append x (y ∷ xs) ys (inl e) = inl e
Has-append x (y ∷ xs) ys (inr h) = inr (Has-append x xs ys h)

Has-filter :
    {A : Type 0} (p : A → Bool) (x : A) (xs : List A) → p x ≡ true → Has x xs → Has x (filter p xs)
Has-filter p x [] h k = elim k [ ]
Has-filter p x (y ∷ xs) h (inl e) = let k : p y ≡ true = rw (sym e) h in rw k (inl e)
Has-filter p x (y ∷ xs) h (inr k) = elim (Bool-cases (p y)) [
  | inl e ↦ rw e (inr (Has-filter p x xs h k))
  | inr e ↦ rw e (Has-filter p x xs h k)
]

any-Has :
    {A : Type 0} (p : A → Bool) (x : A) (xs : List A) → p x ≡ true → Has x xs → any p xs ≡ true
any-Has p x [] h k = elim k [ ]
any-Has p x (y ∷ xs) h (inl e) = let k : p y ≡ true = rw (sym e) h in rw k refl
any-Has p x (y ∷ xs) h (inr k) = let rest = any-Has p x xs h k in ground arith

-- The run is there, and so is its version, one of its pipeline's.
pub record IsPinned (r : StoredRun) (v : PipelineVersion) (t : Tables) : Type 0 where
  pub run : Has r t.runs
  pub version : Has v t.versions
  pub of_pipeline : v.pipeline_id ≡ r.pipeline_id

module _ (m : Models) (r : StoredRun) (v : PipelineVersion) where
  stays_pinned :
      (t : Tables) (id : ℕ)
      → has_runs id t ≡ false
      → IsPinned r v t
      → not (v.pipeline_id == id) ≡ true
  stays_pinned t id none p = elim (Bool-cases (r.pipeline_id == id)) [
    | inl e ↦ let f = any-Has (λ r. r.pipeline_id == id) r t.runs e p.run in absurd (cc)
    | inr e ↦ rw (p.of_pipeline, e) refl
  ]

  request-IsPinned : (q : Request) (t : Tables) → IsPinned r v t → IsPinned r v (request m q t)
  request-IsPinned q t p =
      request_ind m (λ d. Unit) (λ e read user d stored h. tt) t (IsPinned r v) p
        (λ ps vs ok. record {
          run = p.run;
          version = Has-append v t.versions vs p.version;
          of_pipeline = p.of_pipeline;
        })
        (λ id ps free. record {
          run = p.run;
          version =
              Has-filter (λ v. not (v.pipeline_id == id)) v t.versions (stays_pinned t id free p)
                p.version;
          of_pipeline = p.of_pipeline;
        })
        (λ ps. record { run = p.run; version = p.version; of_pipeline = p.of_pipeline })
        (λ s. record {
          run = Has-append r t.runs (s ∷ []) p.run;
          version = p.version;
          of_pipeline = p.of_pipeline;
        })
        q

  -- Whatever requests of the pipeline routes follow (saves, updates from a stale read, deletes,
  -- runs), a run's row stays and so does the row of its version, with the definition it had.
  pub requests-IsPinned :
      (qs : List Request) (t : Tables) → IsPinned r v t → IsPinned r v (requests m qs t)
  unfolding requests
  requests-IsPinned [] t p = p
  requests-IsPinned (q ∷ qs) t p = requests-IsPinned qs (request m q t) (request-IsPinned q t p)
