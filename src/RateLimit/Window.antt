-- ===== src/RateLimit/Window.antt =====
-- What the limiter lets through in a window.
use scrapeflow.Base.{
  ℕ, zero, suc, ◌+◌, ◌≤◌, ◌<◌, ◌≡◌, refl, Bool, true, ◌&&◌, Option, none, some, List, [], ◌∷◌,
  arith, ltb, leb, if◌then◌else◌, length, count, Bool-cases, inl, inr,
}
use scrapeflow.RateLimit.{
  Settings, window_ms, evict, add_entries, check_rate_limit_n, increment_and_check,
}

-- A single request is a batch of one: the two scripts keep the same entries and give the same
-- answer, the Retry-After included.
pub increment_and_check-eq-batch :
    (s : Settings) (now : ℕ) (entries : List ℕ)
    → increment_and_check s now entries ≡ check_rate_limit_n s 1 now entries
unfolding increment_and_check check_rate_limit_n
increment_and_check-eq-batch s now entries = ground arith

-- The requests of one user: one at a time through increment_and_check, or a number of units at a
-- time through check_rate_limit_n.
pub data Request : Type 0 where
  single : Request
  batch : ℕ → Request

pub record Call : Type 0 where
  pub now : ℕ
  pub request : Request

abbrev units : Request → ℕ
units single = 1
units (batch n) = n

unfoldable pub ask : Settings → ℕ → Request → List ℕ → List ℕ × Option ℕ
ask s now single entries = increment_and_check s now entries
ask s now (batch n) entries = check_rate_limit_n s n now entries

-- Every unit that was let through, with its time.
abbrev logged : Option ℕ → ℕ → ℕ → List ℕ → List ℕ
logged none n now log = add_entries n now log
logged (some wait) n now log = log

unfoldable pub serve : Settings → List ℕ × List ℕ → List Call → List ℕ × List ℕ
unfolding ask
serve s (entries, log) [] = (entries, log)
serve s (entries, log) (c ∷ cs) =
    let (entries', refused) = ask s c.now c.request entries in
    serve s (entries', logged refused (units c.request) c.now log) cs

-- The calls come in the order of the clock.
abbrev pub IsOrdered : ℕ → List Call → Type 0
IsOrdered t [] = Unit
IsOrdered t (c ∷ cs) = (t ≤ c.now) × IsOrdered c.now cs

-- The units in the window that ends at `last` (included) and starts a window before (excluded).
abbrev pub in_window : ℕ → ℕ → ℕ → Bool
in_window window last t = leb t last && ltb last (t + window)

-- The set holds every unit of the log that is younger than a window, and no window of the log
-- holds more than the limit.
pub record IsLimited (s : Settings) (last : ℕ) (entries log : List ℕ) : Type 0 where
  pub held :
      (c : ℕ)
      → last ≤ c
      → count (λ t. ltb c (t + window_ms s)) log ≤ count (λ t. ltb c (t + window_ms s)) entries
  pub limited : (c : ℕ) → count (in_window (window_ms s) c) log ≤ s.rate_limit_requests

count-evict :
    (window now c : ℕ) (entries : List ℕ)
    → now ≤ c
    → count (λ t. ltb c (t + window)) (evict now window entries)
      ≡ count (λ t. ltb c (t + window)) entries
unfolding evict
count-evict window now c [] h = refl
count-evict window now c (t ∷ ts) h = ground (arith, count-evict window now c ts h)

count-add :
    (p : ℕ → Bool) (n now : ℕ) (entries : List ℕ)
    → count p (add_entries n now entries) ≡ (if p now then n else 0) + count p entries
count-add p zero now entries = ground arith
count-add p (suc n) now entries = ground (arith, count-add p n now entries)

-- What is in a window that contains `now` is young, if nothing is later than `now`.
count-window :
    (window now c : ℕ) (log : List ℕ)
    → now ≤ c
    → c < now + window
    → count (in_window window c) log ≤ count (λ t. ltb now (t + window)) log
count-window window now c [] h k = omega arith
count-window window now c (t ∷ ts) h k = ground (arith, count-window window now c ts h k)

length-evict :
    (window now : ℕ) (entries : List ℕ)
    → length (evict now window entries) ≡ count (λ t. ltb now (t + window)) entries
unfolding evict
length-evict window now [] = refl
length-evict window now (t ∷ ts) = ground (arith, length-evict window now ts)

module _ (s : Settings) (last : ℕ) (entries log : List ℕ) (h : IsLimited s last entries log) where
  -- A refused call only evicts.
  evict-IsLimited : (now : ℕ) → last ≤ now → IsLimited s now (evict now (window_ms s) entries) log
  evict-IsLimited now l = record {
    held = λ c k. omega (arith, h.held c (omega arith), count-evict (window_ms s) now c entries k);
    limited = h.limited;
  }

  admitted_in_window :
      (now n c : ℕ)
      → last ≤ now
      → length (evict now (window_ms s) entries) + n ≤ s.rate_limit_requests
      → count (in_window (window_ms s) c) (add_entries n now log) ≤ s.rate_limit_requests
  admitted_in_window now n c l room = elim (Bool-cases (in_window (window_ms s) c now)) [
    | inl inside ↦ omega (
      arith,
      count-add (in_window (window_ms s) c) n now log,
      inside_bound now n c inside,
      count-window (window_ms s) now c log (inside_after now c inside) (inside_before now c inside),
      h.held now l,
      length-evict (window_ms s) now entries,
    )
    | inr outside ↦ ground (arith, count-add (in_window (window_ms s) c) n now log, h.limited c)
  ]
    where
      inside_bound :
          (now n c : ℕ)
          → in_window (window_ms s) c now ≡ true
          → (if in_window (window_ms s) c now then n else 0) ≤ n
      inside_bound now n c e = rw e (omega arith)

      inside_after : (now c : ℕ) → in_window (window_ms s) c now ≡ true → now ≤ c
      inside_after now c e = ground arith

      inside_before : (now c : ℕ) → in_window (window_ms s) c now ≡ true → c < now + window_ms s
      inside_before now c e = ground arith

  admitted-IsLimited :
      (now n : ℕ)
      → last ≤ now
      → length (evict now (window_ms s) entries) + n ≤ s.rate_limit_requests
      → IsLimited s now
          (add_entries n now (evict now (window_ms s) entries))
          (add_entries n now log)
  admitted-IsLimited now n l room = record {
    held = λ c k. omega (
      arith,
      h.held c (omega arith),
      count-evict (window_ms s) now c entries k,
      count-add (λ t. ltb c (t + window_ms s)) n now log,
      count-add (λ t. ltb c (t + window_ms s)) n now (evict now (window_ms s) entries),
    );
    limited = λ c. admitted_in_window now n c l room;
  }

  checked-IsLimited :
      (now n : ℕ)
      → last ≤ now
      → let r = check_rate_limit_n s n now entries in IsLimited s now r.0 (logged r.1 n now log)
  unfolding check_rate_limit_n
  checked-IsLimited now n l =
      elim (Bool-cases (ltb s.rate_limit_requests (length (evict now (window_ms s) entries) + n))) [
        | inl full ↦ rw full (evict-IsLimited now l)
        | inr room ↦ rw room (admitted-IsLimited now n l (ground arith))
      ]

  asked-IsLimited :
      (now : ℕ) (request : Request)
      → last ≤ now
      → let r = ask s now request entries in
        IsLimited s now r.0 (logged r.1 (units request) now log)
  unfolding ask
  asked-IsLimited now single l =
      rw (increment_and_check-eq-batch s now entries) (checked-IsLimited now 1 l)
  asked-IsLimited now (batch n) l = checked-IsLimited now n l

-- Whatever a user sends, single requests (increment_and_check) and batches (check_rate_limit_n) mixed,
-- at times in the order of the clock, no window of `rate_limit_window_seconds` ending at any time
-- holds more let-through units than the limit, given that every unit adds an entry to the sorted set
-- (the random suffixes make the members distinct).
pub serve-IsLimited :
    (s : Settings) (last : ℕ) (entries log : List ℕ) (cs : List Call) (c : ℕ)
    → IsLimited s last entries log
    → IsOrdered last cs
    → count (in_window (window_ms s) c) (serve s (entries, log) cs).1 ≤ s.rate_limit_requests
unfolding serve
serve-IsLimited s last entries log [] c h o = h.limited c
serve-IsLimited s last entries log (x ∷ cs) c h o =
    let r = ask s x.now x.request entries in
    serve-IsLimited s x.now r.0 (logged r.1 (units x.request) x.now log) cs c
      (asked-IsLimited s last entries log h x.now x.request o.0) o.1
