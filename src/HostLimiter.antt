-- ===== src/HostLimiter.antt =====
-- The per-host limiter (api/app/core/host_limiter.py). The script is one atomic step on the host's
-- two keys; times are milliseconds of Redis's clock, and an interval is added to the clock as a
-- key's expiry. The expiry that the script gives the leases' key is that of its last lease.
pub mod Polite
mod Examples
use scrapeflow.Base.{
  ℕ, zero, suc, ◌+◌, ◌-◌, Bool, true, false, not, Option, List, [], ◌∷◌, ltb, leb, ◌==◌,
  if◌then◌else◌, length, filter, any,
}

pub record Lease : Type 0 where
  pub id : ℕ
  pub expires_at : ℕ

-- `last_until` is when the key `host:<domain>:last` expires: 0 where it was never set.
pub record Host : Type 0 where
  pub leases : List Lease
  pub last_until : ℕ

-- The script's reply: 0, -1, or the milliseconds until the rate window reopens.
pub data Reply : Type 0 where
  admitted all_in_flight : Reply
  wait_ms : ℕ → Reply

-- ZREMRANGEBYSCORE key -inf now
unfoldable pub evict : ℕ → List Lease → List Lease
evict now leases = filter (λ l. ltb now l.expires_at) leases

abbrev pub holds : ℕ → List Lease → Bool
holds id leases = any (λ l. l.id == id) leases

unfoldable pub acquire_script : ℕ → ℕ → ℕ → ℕ → ℕ → Host → Host × Reply
unfolding evict
acquire_script now id ttl limit interval h =
    let kept = evict now h.leases in
    if holds id kept
    then (record h { leases = kept }, admitted)
    else if leb limit (length kept)
    then (record h { leases = kept }, all_in_flight)
    else if ltb now h.last_until
    then (record h { leases = kept }, wait_ms (h.last_until - now))
    else (
      record {
        leases = record { id = id; expires_at = now + ttl } ∷ kept;
        last_until = if ltb 0 interval then now + interval else h.last_until;
      },
      admitted,
    )

-- host_limit_in_flight and host_limit_interval_ms.
pub record Settings : Type 0 where
  pub host_limit_in_flight : ℕ
  pub host_limit_interval_ms : ℕ

abbrev busy_poll_ms : ℕ
busy_poll_ms = 1000

-- 0 is go, else the wait; `jitter` is what random.randint gives.
abbrev wait_of : ℕ → Reply → ℕ
wait_of jitter admitted = 0
wait_of jitter all_in_flight = busy_poll_ms + jitter
wait_of jitter (wait_ms n) = n + jitter

unfoldable pub acquire : Settings → ℕ → ℕ → ℕ → ℕ → Host → Host × ℕ
unfolding acquire_script
acquire s now jitter id ttl h =
    let (h', reply) = acquire_script now id ttl s.host_limit_in_flight s.host_limit_interval_ms h in
    (h', wait_of jitter reply)

-- ZREM
unfoldable pub release : ℕ → Host → Host
release id h = record h { leases = filter (λ l. not (l.id == id)) h.leases }
