-- ===== src/PipelineRoutes/Checks.antt =====
-- What each check of create_run leaves true when it passes.
use scrapeflow.Base.{
  contains, ℕ, ◌≡◌, ◌≢◌, refl, Bool, true, false, not, ◌&&◌, Option, none, some, List, [], ◌∷◌,
  ◌++◌, map, filter, All, arith, ◌==◌, Option-cases, Bool-cases, inl, inr,
}
use scrapeflow.PipelineWorkflow.Calls.{RunBlock}
use scrapeflow.PipelineRoutes.{
  UserLlmKey, Tables, Refusal, passed, one, Pipeline, PipelineVersion, not_found, both, joined,
  version_row, latest_version, version_to_run, owned_pipeline, is_owned, or_refuse, Problem,
}
use scrapeflow.PipelineRoutes.CheckRun.{
  sorted, minus, names_of, has_name, insert_name, lacks_key, Inputs, llm_key, has_key, key_problems,
  input_problems, refuse,
}
use scrapeflow.PipelineRoutes.ExternalUrls.{IfSome}

-- The key of an LLM block is one of these.
abbrev pub KeyIsGiven : List UserLlmKey → RunBlock → Type 0
KeyIsGiven keys b = IfSome (λ id. has_key keys id ≡ true) (llm_key b)

filter_none :
    {A : Type 0} (p : A → Bool) (P : A → Type 0)
    → ((x : A) → p x ≡ false → P x)
    → (xs : List A) → filter p xs ≡ []
    → All P xs
filter_none p P f [] h = tt
filter_none p P f (x ∷ xs) h = elim (Bool-cases (p x)) [
  | inl e ↦ absurd (ground arith)
  | inr e ↦ (f x e, filter_none p P f xs (ground arith))
]

lacks_no_key :
    (keys : List UserLlmKey) (b : RunBlock) → lacks_key keys b ≡ false → KeyIsGiven keys b
lacks_no_key keys b h = elim (Option-cases (llm_key b)) [
  | inl e ↦ rw (e, KeyIsGiven) tt
  | inr (id, e) ↦ rw (e, KeyIsGiven) (ground arith)
]

map_nil : {A B : Type 0} (f : A → B) (xs : List A) → map f xs ≡ [] → xs ≡ []
map_nil f [] h = refl
map_nil f (x ∷ xs) h = cc

refuse_nil : (ps : List Problem) → refuse ps ≡ passed tt → ps ≡ []
refuse_nil [] h = refl
refuse_nil (p ∷ ps) h = cc

pub key_problems-KeyIsGiven :
    (keys : List UserLlmKey) (blocks : List RunBlock)
    → refuse (key_problems keys blocks) ≡ passed tt
    → All (KeyIsGiven keys) blocks
unfolding key_problems
key_problems-KeyIsGiven keys blocks h =
    filter_none (lacks_key keys) (KeyIsGiven keys) (lacks_no_key keys) blocks
      (map_nil _ (filter (lacks_key keys) blocks) (refuse_nil _ h))

pub owned_keys-owned :
    (user : ℕ) (ids : List ℕ) (table : List UserLlmKey)
    → All (λ k. k.user_id ≡ user) (filter (λ k. contains k.id ids && (k.user_id == user)) table)
owned_keys-owned user ids [] = tt
owned_keys-owned user ids (k ∷ table) =
    elim (Bool-cases (contains k.id ids && (k.user_id == user))) [
      | inl e ↦ rw e (ground arith, owned_keys-owned user ids table)
      | inr e ↦ rw e (owned_keys-owned user ids table)
    ]

append_nil : {A : Type 0} (xs ys : List A) → xs ++ ys ≡ [] → (xs ≡ []) × (ys ≡ [])
append_nil [] ys h = (refl, h)
append_nil (x ∷ xs) ys h = cc

insert_name_some : (n : List ℕ) (ns : List (List ℕ)) → insert_name n ns ≢ []
insert_name_some n [] h = cc
insert_name_some n (m ∷ ms) h = ground arith

sorted_nil : (ns : List (List ℕ)) → sorted ns ≡ [] → ns ≡ []
sorted_nil [] h = refl
sorted_nil (n ∷ ns) h = absurd (insert_name_some n (sorted ns) h)

minus_nil :
    (ns others : List (List ℕ)) → minus ns others ≡ [] → All (λ n. has_name others n ≡ true) ns
minus_nil ns others h =
    filter_none (λ n. not (has_name others n)) (λ n. has_name others n ≡ true) (λ n e. ground arith)
      ns h

-- Every declared input is given, and every given one is declared.
abbrev pub InputsFit : List (List ℕ) → Inputs → Type 0
InputsFit declared inputs =
    All (λ n. has_name (names_of inputs) n ≡ true) declared
    × All (λ n. has_name declared n ≡ true) (names_of inputs)

pub input_problems-InputsFit :
    (declared : List (List ℕ)) (inputs : Inputs)
    → refuse (input_problems declared inputs) ≡ passed tt
    → InputsFit declared inputs
unfolding input_problems
input_problems-InputsFit declared inputs h =
    let (a, b) = append_nil _ _ (refuse_nil _ h) in
    (
      minus_nil declared (names_of inputs) (sorted_nil _ (map_nil _ _ a)),
      minus_nil (names_of inputs) declared (sorted_nil _ (map_nil _ _ b)),
    )

one_holds : {A : Type 0} (p : A → Bool) (xs : List A) (x : A) → one p xs ≡ some x → p x ≡ true
one_holds p [] x h = cc
one_holds p (y ∷ ys) x h = elim (Bool-cases (p y)) [
  | inl e ↦ ground arith
  | inr e ↦ one_holds p ys x (ground arith)
]

-- A pipeline of the user, not deleted, and a version of it.
pub record IsOwned (user pipeline : ℕ) (row : Pipeline × PipelineVersion) : Type 0 where
  pub id : row.0.id ≡ pipeline
  pub user_id : row.0.user_id ≡ user
  pub is_deleted : row.0.is_deleted ≡ false
  pub version : row.1.pipeline_id ≡ pipeline

is_owned-IsOwned :
    (user pipeline version : ℕ) (p : Pipeline) (v : PipelineVersion)
    → is_owned user pipeline p ≡ true
    → ((v.pipeline_id == pipeline) && (v.version == version)) ≡ true
    → IsOwned user pipeline (p, v)
is_owned-IsOwned user pipeline version p v h k = record {
  id = ground arith;
  user_id = ground arith;
  is_deleted = ground arith;
  version = ground arith;
}

both-some :
    {A B : Type 0} (a : Option A) (b : Option B) (x : A × B)
    → both a b ≡ some x
    → (a ≡ some x.0) × (b ≡ some x.1)
both-some none b x h = cc
both-some (some a) none x h = cc
both-some (some a) (some b) x h = (ground arith, ground arith)

joined-IsOwned :
    (t : Tables) (user pipeline version : ℕ) (row : Pipeline × PipelineVersion)
    → joined t user pipeline version ≡ some row
    → IsOwned user pipeline row
unfolding joined
joined-IsOwned t user pipeline version row h =
    let (p, v) =
      both-some (one (is_owned user pipeline) t.pipelines) (version_row pipeline version t) row h in
    is_owned-IsOwned user pipeline version row.0 row.1
      (one_holds (is_owned user pipeline) t.pipelines row.0 p)
      (one_holds (λ v. (v.pipeline_id == pipeline) && (v.version == version)) t.versions row.1 v)

or_refuse-passed :
    {A : Type 0} (r : Refusal) (o : Option A) (a : A) → or_refuse r o ≡ passed a → o ≡ some a
or_refuse-passed r none a h = cc
or_refuse-passed r (some b) a h = ground arith

pub version_to_run-IsOwned :
    (t : Tables) (user pipeline : ℕ) (version : Option ℕ) (row : Pipeline × PipelineVersion)
    → version_to_run t user pipeline version ≡ passed row
    → IsOwned user pipeline row
unfolding version_to_run owned_pipeline
version_to_run-IsOwned t user pipeline none row h =
    joined-IsOwned t user pipeline (latest_version pipeline t.versions) row
      (or_refuse-passed not_found _ row h)
version_to_run-IsOwned t user pipeline (some n) row h =
    joined-IsOwned t user pipeline n row (or_refuse-passed not_found _ row h)
