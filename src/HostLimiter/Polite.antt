-- ===== src/HostLimiter/Polite.antt =====
-- What the limiter promises a host.
use scrapeflow.Base.{
  ℕ, ◌+◌, ◌-◌, ◌≤◌, ◌<◌, ◌≡◌, refl, Bool, true, false, not, List, [], ◌∷◌, arith, ltb, leb, ◌==◌,
  if◌then◌else◌, length, filter, Bool-cases, inl, inr, length-filter, count-le-length, ==_self,
}
use scrapeflow.HostLimiter.{Host, Settings, evict, holds, acquire_script, acquire, release}

pub data Call : Type 0 where
  -- now, jitter, lease, ttl
  ask : ℕ → ℕ → ℕ → ℕ → Call
  give_back : ℕ → Call

-- The scrapes that were let start, the newest first: acquire's answer to them was go, and it was not
-- the retry of a scrape that has its lease.
abbrev pub started : ℕ → ℕ → Host → ℕ → List ℕ → List ℕ
started now id h wait starts =
    if holds id (evict now h.leases) then starts else if wait == 0 then now ∷ starts else starts

unfoldable pub serve : Settings → Host × List ℕ → List Call → Host × List ℕ
serve s (h, starts) [] = (h, starts)
serve s (h, starts) (ask now jitter id ttl ∷ cs) =
    let (h', wait) = acquire s now jitter id ttl h in serve s (h', started now id h wait starts) cs
serve s (h, starts) (give_back id ∷ cs) = serve s (release id h, starts) cs

-- Two starts are an interval apart.
abbrev pub IsSpaced : ℕ → List ℕ → Type 0
IsSpaced interval [] = Unit
IsSpaced interval (t ∷ []) = Unit
IsSpaced interval (t ∷ u ∷ rest) = (u + interval ≤ t) × IsSpaced interval (u ∷ rest)

abbrev Reopens : ℕ → ℕ → List ℕ → Type 0
Reopens interval last_until [] = Unit
Reopens interval last_until (t ∷ rest) = t + interval ≤ last_until

-- At most the limit of leases, and starts an interval apart, the next one too.
pub record IsPolite (s : Settings) (h : Host) (starts : List ℕ) : Type 0 where
  pub in_flight : length h.leases ≤ s.host_limit_in_flight
  pub spaced : IsSpaced s.host_limit_interval_ms starts
  pub reopens : Reopens s.host_limit_interval_ms h.last_until starts

filter-le {ℓ} : {A : Type ℓ} (p : A → Bool) (xs : List A) → length (filter p xs) ≤ length xs
filter-le p xs = omega (arith, length-filter p xs, count-le-length p xs)

start-IsSpaced :
    (interval now last_until : ℕ) (starts : List ℕ)
    → last_until ≤ now
    → Reopens interval last_until starts
    → IsSpaced interval starts
    → IsSpaced interval (now ∷ starts)
start-IsSpaced interval now last_until [] l r h = tt
start-IsSpaced interval now last_until (t ∷ rest) l r h = (omega arith, h)

module _ (s : Settings) (h : Host) (starts : List ℕ) (polite : IsPolite s h starts) where
  evicted : (now : ℕ) → IsPolite s (record h { leases = evict now h.leases }) starts
  unfolding evict
  evicted now = record {
    in_flight = omega (arith, filter-le (λ l. ltb now l.expires_at) h.leases, polite.in_flight);
    spaced = polite.spaced;
    reopens = polite.reopens;
  }

  granted :
      (now id ttl : ℕ)
      → 0 < s.host_limit_interval_ms
      → length (evict now h.leases) < s.host_limit_in_flight
      → h.last_until ≤ now
      → IsPolite s
          (record {
            leases = record { id = id; expires_at = now + ttl } ∷ evict now h.leases;
            last_until =
                if ltb 0 s.host_limit_interval_ms
                then now + s.host_limit_interval_ms
                else h.last_until;
          })
          (now ∷ starts)
  granted now id ttl set room open_again = record {
    in_flight = omega arith;
    spaced =
        start-IsSpaced s.host_limit_interval_ms now h.last_until starts open_again polite.reopens
          polite.spaced;
    reopens = ground arith;
  }

  busy_wait : (jitter : ℕ) → (1000 + jitter == 0) ≡ false
  busy_wait jitter = ground arith

  early_wait :
      (now last_until jitter : ℕ)
      → ltb now last_until ≡ true
      → (last_until - now + jitter == 0) ≡ false
  early_wait now last_until jitter early = ground arith

  acquire-IsPolite :
      (now jitter id ttl : ℕ)
      → 0 < s.host_limit_interval_ms
      → let r = acquire s now jitter id ttl h in IsPolite s r.0 (started now id h r.1 starts)
  unfolding acquire acquire_script
  acquire-IsPolite now jitter id ttl set = elim (Bool-cases (holds id (evict now h.leases))) [
    | inl held ↦ rw (held, acquire) (evicted now)
    | inr new ↦ elim (Bool-cases (leb s.host_limit_in_flight (length (evict now h.leases)))) [
      | inl full ↦ rw (new, full, acquire, busy_wait jitter) (evicted now)
      | inr room ↦ elim (Bool-cases (ltb now h.last_until)) [
        | inl early ↦
            rw (new, room, early, acquire, early_wait now h.last_until jitter early) (evicted now)
        | inr open_again ↦
            rw (new, room, open_again, acquire)
              (granted now id ttl set (ground arith) (ground arith))
      ]
    ]
  ]

  release-IsPolite : (id : ℕ) → IsPolite s (release id h) starts
  unfolding release
  release-IsPolite id = record {
    in_flight = omega (arith, filter-le (λ l. not (l.id == id)) h.leases, polite.in_flight);
    spaced = polite.spaced;
    reopens = polite.reopens;
  }

-- With an interval set, whatever acquires and releases reach a host, in any order, it has at most
-- host_limit_in_flight leases, and two scrapes that were let start are host_limit_interval_ms apart.
pub serve-IsPolite :
    (s : Settings) (h : Host) (starts : List ℕ) (cs : List Call)
    → 0 < s.host_limit_interval_ms
    → IsPolite s h starts
    → IsPolite s (serve s (h, starts) cs).0 (serve s (h, starts) cs).1
unfolding serve
serve-IsPolite s h starts [] set polite = polite
serve-IsPolite s h starts (ask now jitter id ttl ∷ cs) set polite =
    let r = acquire s now jitter id ttl h in
    serve-IsPolite s r.0 (started now id h r.1 starts) cs set
      (acquire-IsPolite s h starts polite now jitter id ttl set)
serve-IsPolite s h starts (give_back id ∷ cs) set polite =
    serve-IsPolite s (release id h) starts cs set (release-IsPolite s h starts polite id)

module _ (s : Settings) (now jitter id ttl : ℕ) (h : Host) where
  granted_holds :
      (later : ℕ)
      → later < now + ttl
      → holds id (evict later (record { id = id; expires_at = now + ttl } ∷ evict now h.leases))
        ≡ true
  unfolding evict
  granted_holds later alive = rw (ltb-true later (now + ttl) alive, ==_self id) refl
    where
      ltb-true : (a b : ℕ) → a < b → ltb a b ≡ true
      ltb-true a b l = ground arith

  -- An acquire that is let through leaves a lease until its expiry.
  acquired_holds :
      (later : ℕ)
      → holds id (evict now h.leases) ≡ false
      → (acquire s now jitter id ttl h).1 ≡ 0
      → later < now + ttl
      → holds id (evict later (acquire s now jitter id ttl h).0.leases) ≡ true
  unfolding acquire acquire_script
  acquired_holds later new go alive =
      elim (Bool-cases (leb s.host_limit_in_flight (length (evict now h.leases)))) [
        | inl full ↦ ground arith
        | inr room ↦ elim (Bool-cases (ltb now h.last_until)) [
          | inl early ↦ ground arith
          | inr open_again ↦ rw (new, room, open_again, acquire) (granted_holds later alive)
        ]
      ]

-- An acquire that let a new lease through is let through again when it is retried before the lease
-- expires, at any time and with any jitter: the retry only evicts, so it takes no second slot and
-- does not move the interval.
pub acquire_retry :
    (s : Settings) (now jitter id ttl later jitter' : ℕ) (h : Host)
    → holds id (evict now h.leases) ≡ false
    → (acquire s now jitter id ttl h).1 ≡ 0
    → later < now + ttl
    → let h' = (acquire s now jitter id ttl h).0 in
      acquire s later jitter' id ttl h' ≡ (record h' { leases = evict later h'.leases }, 0)
unfolding acquire evict
acquire_retry s now jitter id ttl later jitter' h new go alive =
    held_retry (acquire s now jitter id ttl h).0
      (acquired_holds s now jitter id ttl h later new go alive)
  where
    held_retry :
        (g : Host)
        → holds id (evict later g.leases) ≡ true
        → acquire s later jitter' id ttl g ≡ (record g { leases = evict later g.leases }, 0)
    held_retry g held = rw (held, acquire) refl
