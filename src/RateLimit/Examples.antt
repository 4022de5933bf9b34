-- ===== src/RateLimit/Examples.antt =====
-- Two requests a minute.
use scrapeflow.Base.{◌≡◌, ◌≤◌, refl, List, [], ◌∷◌, arith, some, count}
use scrapeflow.RateLimit.{Settings, increment_and_check, check_rate_limit_n}
use scrapeflow.RateLimit.Window.{
  Call, single, batch, IsLimited, IsOrdered, serve, in_window, serve-IsLimited,
}

abbrev two_a_minute : Settings
two_a_minute = record { rate_limit_requests = 2; rate_limit_window_seconds = 60 }

abbrev calls : List Call
calls =
    record { now = 1000; request = single }
    ∷ record { now = 2000; request = batch 1 }
    ∷ record { now = 31000; request = single }
    ∷ record { now = 61000; request = single }
    ∷ []

-- The third call waits for the first one to leave the window.
third_refused :
    increment_and_check two_a_minute 31000 (2000 ∷ 1000 ∷ []) ≡ (2000 ∷ 1000 ∷ [], some 30)
unfolding increment_and_check
third_refused = refl

let_through : (serve two_a_minute ([], []) calls).1 ≡ (61000 ∷ 2000 ∷ 1000 ∷ [])
unfolding serve check_rate_limit_n increment_and_check
let_through = refl

empty-IsLimited : IsLimited two_a_minute 0 [] []
empty-IsLimited = record { held = λ c h. omega arith; limited = λ c. omega arith }

calls-IsOrdered : IsOrdered 0 calls
calls-IsOrdered = (omega arith, (omega arith, (omega arith, (omega arith, tt))))

serve-IsLimited_example : count (in_window 60000 2000) (serve two_a_minute ([], []) calls).1 ≤ 2
serve-IsLimited_example =
    serve-IsLimited two_a_minute 0 [] [] calls 2000 empty-IsLimited calls-IsOrdered
