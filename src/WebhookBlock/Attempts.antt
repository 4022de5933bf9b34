-- ===== src/WebhookBlock/Attempts.antt =====
-- The attempts of one webhook block.
use scrapeflow.Base.{
  ℕ, suc, List, [], ◌∷◌, String, Option, none, some, if_ind, Bool, ltb, not, true, false,
}
use scrapeflow.PipelineMirror.Mirrors.{
  RunStatus, State, MirrorStatus, Answer, returned, no_run, no_block,
}
use scrapeflow.PipelineMirror.Reaches.{Reaches, Reaches-refl, Reaches-trans, Reaches-mirror_block}
use scrapeflow.Temporal.Commits.{Reaches-commits}
use scrapeflow.Temporal.{commits, DbCall, Ending, answers, timed_out, timed_out_after, Called}
use scrapeflow.WebhookBlock.{
  AttemptEnd, WebhookInput, Attempt, mirror, post, checked_post, deliver_webhook, attempts_from,
  after_attempt, after_start, delivered, final, retried,
}

module _ {ends : Bool} (i : WebhookInput) (status : MirrorStatus) (error : Option String)
    (s : State) where
  mirror_ended :
      (c : DbCall) (ending : Ending)
      → Reaches ends s (mirror i status error (record c { ending = ending }) s).0
  mirror_ended c answers =
      Reaches-trans s (commits c.meanwhile s) _ (Reaches-commits s c.meanwhile)
        (Reaches-mirror_block (commits c.meanwhile s) _ c.now)
  mirror_ended c timed_out = Reaches-commits s c.meanwhile
  mirror_ended c timed_out_after =
      Reaches-trans s (commits c.meanwhile s) _ (Reaches-commits s c.meanwhile)
        (Reaches-mirror_block (commits c.meanwhile s) _ c.now)

  pub mirror-Reaches : (c : DbCall) → Reaches ends s (mirror i status error c s).0
  mirror-Reaches c = mirror_ended c c.ending

module _ {ends : Bool} (str : ℕ → String) (i : WebhookInput) (n : ℕ) where
  post-Reaches :
      (a : Attempt) (error : Option String) (s : State)
      → Reaches ends s (post str i n (record a { error = error }) s).0
  unfolding post
  post-Reaches a none s = Reaches-refl s
  post-Reaches a (some error) s =
      if_ind (λ (o : State × ℕ × AttemptEnd). Reaches ends s o.0) (ltb n i.maximum_attempts) _ _
        (mirror-Reaches i MirrorStatus.waiting _ s a.wait) (Reaches-refl s)

  checked_post-Reaches :
      (a : Attempt) (blocked : Option String) (decrypts : Bool) (s : State)
      → Reaches ends s
          (checked_post str i n (record a { blocked = blocked; decrypts = decrypts }) s).0
  unfolding checked_post
  checked_post-Reaches a (some reason) d s = Reaches-refl s
  checked_post-Reaches a none true s = post-Reaches a a.error s
  checked_post-Reaches a none false s = Reaches-refl s

  pub after_start-Reaches :
      (a : Attempt) (m : Option (Answer RunStatus)) (s : State)
      → Reaches ends s (after_start str i n a m s).0
  unfolding after_start
  after_start-Reaches a (some (returned RunStatus.running)) s =
      checked_post-Reaches a a.blocked a.decrypts s
  after_start-Reaches a (some (returned RunStatus.completed)) s = Reaches-refl s
  after_start-Reaches a (some (returned RunStatus.failed)) s = Reaches-refl s
  after_start-Reaches a (some (returned RunStatus.cancelled)) s = Reaches-refl s
  after_start-Reaches a (some no_run) s = Reaches-refl s
  after_start-Reaches a (some no_block) s = Reaches-refl s
  after_start-Reaches a none s = Reaches-refl s

  deliver_webhook-Reaches :
      (a : Attempt) (s : State) → Reaches ends s (deliver_webhook str i n a s).0
  unfolding deliver_webhook
  deliver_webhook-Reaches a s =
      let (s', started) = mirror i MirrorStatus.running none a.start s in
      if_ind (λ (o : State × ℕ × AttemptEnd). Reaches ends s o.0) (ltb 1 n) _ _
        (Reaches-trans s s' _ (mirror-Reaches i MirrorStatus.running none s a.start)
          (after_start-Reaches a started s'))
        (checked_post-Reaches a a.blocked a.decrypts s)

module _ {ends : Bool} (str : ℕ → String) (i : WebhookInput) where
  after_attempt-Reaches :
      (n : ℕ) (a : Attempt) (later : List Attempt) (s t : State) (sent : ℕ) (end : AttemptEnd)
      → Reaches ends s t
      → Reaches ends t (attempts_from str i (suc n) later t).0
      → Reaches ends s (after_attempt i n a (t, sent, end) (attempts_from str i (suc n) later t)).0
  unfolding attempts_from
  after_attempt-Reaches n a later s t sent delivered r q = r
  after_attempt-Reaches n a later s t sent (final e) r q = r
  after_attempt-Reaches n a later s t sent (retried message) r q =
      if_ind (λ (o : State × ℕ × Called (Unit {0})). Reaches ends s o.0)
        (not (ltb n i.maximum_attempts)) _ _ r
        (if_ind (λ (o : State × ℕ × Called (Unit {0})). Reaches ends s o.0) a.interrupted _ _ r
          (Reaches-trans s t _ r q))

  pub attempts_from-Reaches :
      (n : ℕ) (as' : List Attempt) (s : State) → Reaches ends s (attempts_from str i n as' s).0
  unfolding attempts_from
  attempts_from-Reaches n [] s = Reaches-refl s
  attempts_from-Reaches n (a ∷ later) s =
      let (t, sent, end) = deliver_webhook str i n a s in
      after_attempt-Reaches n a later s t sent end (deliver_webhook-Reaches str i n a s)
        (attempts_from-Reaches (suc n) later t)
