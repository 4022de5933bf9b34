-- ===== src/Robots/Examples.antt =====
-- Disallow: /a and Allow: /ab for ScrapeFlow, everything disallowed for the others.
use scrapeflow.Base.{◌≡◌, refl, true, false, List, [], ◌∷◌, ◌++◌}
use scrapeflow.Robots.{Text, Rule, user_agent, disallow, allow, is_path_disallowed, apply_rules}
use scrapeflow.Robots.Longest.{disallowed_by, apply_rules-longest}

-- ": " and the value
abbrev field : Text → Text → Text
field name value = name ++ 58 ∷ 32 ∷ value

abbrev lines : List Text
lines =
    field user_agent (42 ∷ [])
    ∷ field disallow (47 ∷ [])
    ∷ []
    ∷ field user_agent (83 ∷ 99 ∷ 114 ∷ 97 ∷ 112 ∷ 101 ∷ 70 ∷ 108 ∷ 111 ∷ 119 ∷ [])
    ∷ field disallow (47 ∷ 97 ∷ [])
    ∷ field allow (47 ∷ 97 ∷ 98 ∷ 32 ∷ 35 ∷ 120 ∷ [])
    ∷ []

disallowed_a : is_path_disallowed lines (47 ∷ 97 ∷ 99 ∷ []) ≡ true
unfolding is_path_disallowed
disallowed_a = refl

allowed_ab : is_path_disallowed lines (47 ∷ 97 ∷ 98 ∷ 99 ∷ []) ≡ false
unfolding is_path_disallowed
allowed_ab = refl

allowed_elsewhere : is_path_disallowed lines (47 ∷ 98 ∷ []) ≡ false
unfolding is_path_disallowed
allowed_elsewhere = refl

abbrev rules : List Rule
rules =
    record { is_allow = true; prefix = 47 ∷ 97 ∷ [] }
    ∷ record { is_allow = false; prefix = 47 ∷ 97 ∷ [] }
    ∷ record { is_allow = false; prefix = [] }
    ∷ []

apply_rules-longest_example :
    apply_rules rules (47 ∷ 97 ∷ 98 ∷ []) ≡ disallowed_by rules (47 ∷ 97 ∷ 98 ∷ [])
apply_rules-longest_example = apply_rules-longest rules (47 ∷ 97 ∷ 98 ∷ [])

-- A line that holds only a comment ends the block, and the Disallow behind it is dropped.
comment_ends_block :
    is_path_disallowed
      (field user_agent (42 ∷ []) ∷ (35 ∷ 120 ∷ []) ∷ field disallow (47 ∷ []) ∷ [])
      (47 ∷ 97 ∷ [])
    ≡ false
unfolding is_path_disallowed
comment_ends_block = refl

-- Without an empty line between two groups the second one's rules are ScrapeFlow's too.
groups_run_together :
    is_path_disallowed
      (field user_agent (115 ∷ 99 ∷ 114 ∷ 97 ∷ 112 ∷ 101 ∷ 102 ∷ 108 ∷ 111 ∷ 119 ∷ [])
        ∷ field disallow (47 ∷ 97 ∷ [])
        ∷ field user_agent (42 ∷ [])
        ∷ field disallow (47 ∷ [])
        ∷ [])
      (47 ∷ 98 ∷ [])
    ≡ true
unfolding is_path_disallowed
groups_run_together = refl
