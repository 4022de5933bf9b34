-- ===== src/RateLimit.antt =====
-- The per-user request limiter (api/app/core/rate_limit.py). A script is one atomic step on the
-- sorted set of the user's key, which is the list of its scores, the newest first. The random
-- suffixes are taken to make the members distinct, so that ZADD adds an entry for each request.
-- The key's TTL of two windows expires no entry that a script would still count. Times are
-- milliseconds.
pub mod Window
mod Examples
use scrapeflow.Base.{
  ℕ, zero, suc, ◌+◌, ◌-◌, ◌*◌, ◌/◌, ◌≡◌, Bool, true, false, not, Option, none, some, List, [], ◌∷◌,
  ◌++◌, ltb, leb, if◌then◌else◌, length, filter, max,
}

-- {1, 0}, or {0, oldest_ms}.
pub data Reply : Type 0 where
  allowed : Reply
  limited : ℕ → Reply

-- ZREMRANGEBYSCORE key -inf (now - window)
unfoldable pub evict : ℕ → ℕ → List ℕ → List ℕ
evict now window entries = filter (λ t. not (leb (t + window) now)) entries

-- ZRANGE key 0 0 WITHSCORES, or `now` when the set is empty.
abbrev oldest : ℕ → List ℕ → ℕ
oldest now [] = now
oldest now (t ∷ []) = t
oldest now (t ∷ u ∷ rest) = oldest now (u ∷ rest)

unfoldable pub sliding_window : ℕ → ℕ → ℕ → List ℕ → List ℕ × Reply
unfolding evict
sliding_window now window limit entries =
    let kept = evict now window entries in
    if leb limit (length kept) then (kept, limited (oldest now kept)) else (now ∷ kept, allowed)

-- for i = 1, count do ZADD
abbrev pub add_entries : ℕ → ℕ → List ℕ → List ℕ
add_entries zero now entries = entries
add_entries (suc n) now entries = now ∷ add_entries n now entries

unfoldable pub sliding_window_batch : ℕ → ℕ → ℕ → ℕ → List ℕ → List ℕ × Reply
unfolding evict
sliding_window_batch now window limit count entries =
    let kept = evict now window entries in
    if ltb limit (length kept + count)
    then (kept, limited (oldest now kept))
    else (add_entries count now kept, allowed)

pub record Settings : Type 0 where
  pub rate_limit_requests : ℕ
  pub rate_limit_window_seconds : ℕ

abbrev pub window_ms : Settings → ℕ
window_ms s = s.rate_limit_window_seconds * 1000

-- max(1, (oldest_ms + window_ms - now_ms) // 1000); the oldest entry kept is younger than a window.
unfoldable pub retry_after : ℕ → ℕ → ℕ → ℕ
retry_after oldest_ms window now = max 1 ((oldest_ms + window - now) / 1000)

-- `some` is the 429 with its Retry-After.
abbrev refusal : ℕ → ℕ → Reply → Option ℕ
refusal window now allowed = none
refusal window now (limited oldest_ms) = some (retry_after oldest_ms window now)

unfoldable pub increment_and_check : Settings → ℕ → List ℕ → List ℕ × Option ℕ
unfolding sliding_window retry_after
increment_and_check s now entries =
    let (entries', reply) = sliding_window now (window_ms s) s.rate_limit_requests entries in
    (entries', refusal (window_ms s) now reply)

unfoldable pub check_rate_limit_n : Settings → ℕ → ℕ → List ℕ → List ℕ × Option ℕ
unfolding sliding_window_batch retry_after
check_rate_limit_n s count now entries =
    let (entries', reply) =
      sliding_window_batch now (window_ms s) s.rate_limit_requests count entries in
    (entries', refusal (window_ms s) now reply)
