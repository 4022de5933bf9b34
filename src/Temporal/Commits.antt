-- ===== src/Temporal/Commits.antt =====
-- The API's cancels are transactions that end no run.
use scrapeflow.Base.{◌≡◌, refl, Bool, true, List, [], ◌∷◌, All, map}
use scrapeflow.PipelineMirror.{cancel}
use scrapeflow.PipelineMirror.Mirrors.{State}
use scrapeflow.PipelineMirror.Reaches.{Reaches, is_end}
use scrapeflow.Temporal.{ApiCancel, commits}

pub Reaches-commits :
    {ends : Bool} (s : State) (cs : List ApiCancel) → Reaches ends s (commits cs s)
unfolding commits
Reaches-commits {ends} s cs = (map (λ c. cancel c.user c.now) cs, no_ends cs, refl)
  where
    no_ends :
        (cs : List ApiCancel)
        → All (λ e. (is_end e ≡ true) → (ends ≡ true)) (map (λ c. cancel c.user c.now) cs)
    no_ends [] = tt
    no_ends (c ∷ cs) = ((λ h. absurd (cc)), no_ends cs)
