-- ===== src/HostLimiter/Examples.antt =====
-- Two scrapes of a host at once, a second apart.
use scrapeflow.Base.{◌≡◌, refl, List, [], ◌∷◌, arith}
use scrapeflow.HostLimiter.{Host, Settings, acquire, release}
use scrapeflow.HostLimiter.Polite.{Call, ask, give_back, serve, IsPolite, serve-IsPolite}

abbrev settings : Settings
settings = record { host_limit_in_flight = 2; host_limit_interval_ms = 1000 }

abbrev idle : Host
idle = record { leases = []; last_until = 0 }

-- The second ask comes too soon, the last one finds both slots taken.
abbrev calls : List Call
calls =
    ask 5000 0 1 90000
    ∷ ask 5400 7 2 90000
    ∷ ask 6000 0 2 90000
    ∷ ask 6100 0 1 90000
    ∷ ask 7500 0 3 90000
    ∷ give_back 1
    ∷ ask 8000 0 3 90000
    ∷ []

starts_of_calls : (serve settings (idle, []) calls).1 ≡ (8000 ∷ 6000 ∷ 5000 ∷ [])
unfolding serve acquire release
starts_of_calls = refl

too_soon : (acquire settings 5400 7 2 90000 (acquire settings 5000 0 1 90000 idle).0).1 ≡ 607
unfolding acquire
too_soon = refl

idle-IsPolite : IsPolite settings idle []
idle-IsPolite = record { in_flight = omega arith; spaced = tt; reopens = tt }

serve-IsPolite_example :
    IsPolite settings (serve settings (idle, []) calls).0 (serve settings (idle, []) calls).1
serve-IsPolite_example = serve-IsPolite settings idle [] calls (omega arith) idle-IsPolite

granted_first : (acquire settings 5000 0 1 90000 idle).1 ≡ 0
unfolding acquire
granted_first = refl
