-- ===== src/Robots.antt =====
-- The robots.txt check (playwright-worker/worker/robots.py). A text is its list of lines, as
-- splitlines gives them, and a line its list of characters, as numbers; strip and lower are those of
-- ASCII. The fetch is not modelled.
pub mod Longest
mod Examples
use scrapeflow.Base.{
  same_text, ℕ, zero, suc, ◌+◌, Bool, true, false, not, ◌&&◌, ◌||◌, Option, none, some, List, [],
  ◌∷◌, ◌++◌, map, ltb, leb, ◌==◌, if◌then◌else◌, length, any, startswith,
}

abbrev pub Text : Type 0
Text = List ℕ

abbrev is_space : ℕ → Bool
is_space c = (c == 32) || (leb 9 c && leb c 13) || (leb 28 c && leb c 31)

abbrev drop_spaces : Text → Text
drop_spaces [] = []
drop_spaces (c ∷ cs) = let rest = drop_spaces cs in if is_space c then rest else c ∷ cs

abbrev reverse_onto : Text → Text → Text
reverse_onto [] acc = acc
reverse_onto (c ∷ cs) acc = reverse_onto cs (c ∷ acc)

abbrev pub strip : Text → Text
strip t = reverse_onto (drop_spaces (reverse_onto (drop_spaces t) [])) []

abbrev lower_char : ℕ → ℕ
lower_char c = if leb 65 c && leb c 90 then c + 32 else c

abbrev pub lower : Text → Text
lower t = map lower_char t

-- t.split(c, 1)[0]
abbrev before : ℕ → Text → Text
before sep [] = []
before sep (c ∷ cs) = let rest = before sep cs in if c == sep then [] else c ∷ rest

-- The part behind the first separator.
abbrev behind : ℕ → Text → Text
behind sep [] = []
behind sep (c ∷ cs) = let rest = behind sep cs in if c == sep then cs else rest

abbrev colon : ℕ
colon = 58

abbrev hash : ℕ
hash = 35

-- "user-agent"
abbrev pub user_agent : Text
user_agent = 117 ∷ 115 ∷ 101 ∷ 114 ∷ 45 ∷ 97 ∷ 103 ∷ 101 ∷ 110 ∷ 116 ∷ []

-- "disallow"
abbrev pub disallow : Text
disallow = 100 ∷ 105 ∷ 115 ∷ 97 ∷ 108 ∷ 108 ∷ 111 ∷ 119 ∷ []

-- "allow"
abbrev pub allow : Text
allow = 97 ∷ 108 ∷ 108 ∷ 111 ∷ 119 ∷ []

-- "scrapeflow"
abbrev scrapeflow_agent : Text
scrapeflow_agent = 115 ∷ 99 ∷ 114 ∷ 97 ∷ 112 ∷ 101 ∷ 102 ∷ 108 ∷ 111 ∷ 119 ∷ []

-- "*"
abbrev any_agent : Text
any_agent = 42 ∷ []

-- (is_allow, path_prefix)
pub record Rule : Type 0 where
  pub is_allow : Bool
  pub prefix : Text

-- The variables of the loop over the lines.
pub record Parse : Type 0 where
  pub scrapeflow_rules : List Rule
  pub wildcard_rules : List Rule
  pub current_agents : List Text
  pub in_block : Bool

-- for agent in current_agents: ...
unfoldable pub add_rule : Rule → List Text → Parse → Parse
add_rule r [] p = p
add_rule r (agent ∷ agents) p = add_rule r agents (
    if same_text agent scrapeflow_agent
    then record p { scrapeflow_rules = p.scrapeflow_rules ++ r ∷ [] }
    else if same_text agent any_agent
    then record p { wildcard_rules = p.wildcard_rules ++ r ∷ [] }
    else p)

abbrev read_field : Text → Text → Parse → Parse
read_field field value p =
    if same_text field user_agent
    then record p { current_agents = p.current_agents ++ lower value ∷ []; in_block = true }
    else if same_text field disallow && p.in_block
    then add_rule (record { is_allow = false; prefix = value }) p.current_agents p
    else if same_text field allow && p.in_block
    then add_rule (record { is_allow = true; prefix = value }) p.current_agents p
    else p

abbrev is_empty : Text → Bool
is_empty [] = true
is_empty (c ∷ cs) = false

unfoldable pub read_line : Text → Parse → Parse
unfolding add_rule
read_line raw p =
    let line = strip (before hash raw) in
    if is_empty line
    then record p { current_agents = []; in_block = false }
    else if not (any (λ c. c == colon) line)
    then p
    else read_field (lower (strip (before colon line))) (strip (behind colon line)) p

unfoldable pub read_lines : List Text → Parse → Parse
unfolding read_line
read_lines [] p = p
read_lines (line ∷ lines) p = read_lines lines (read_line line p)

-- The loop's best_len and best_allow; `best` is best_len + 1, so that it starts at 0.
pub record Best : Type 0 where
  pub best : ℕ
  pub best_allow : Bool

abbrev pub better : Text → Rule → Best → Best
better path r b =
    if is_empty r.prefix
    then b
    else if startswith path r.prefix && ltb b.best (suc (length r.prefix))
    then record { best = suc (length r.prefix); best_allow = r.is_allow }
    else b

unfoldable pub best_rule : Text → List Rule → Best → Best
best_rule path [] b = b
best_rule path (r ∷ rules) b = best_rule path rules (better path r b)

unfoldable pub apply_rules : List Rule → Text → Bool
unfolding best_rule
apply_rules rules path =
    not (best_rule path rules (record { best = 0; best_allow = true })).best_allow

abbrev rules_of : Parse → List Rule
rules_of p = elim p.scrapeflow_rules [ [] ↦ p.wildcard_rules | r ∷ rules ↦ r ∷ rules ]

unfoldable pub is_path_disallowed : List Text → Text → Bool
unfolding read_lines apply_rules
is_path_disallowed lines path =
    let p = read_lines lines (record {
      scrapeflow_rules = [];
      wildcard_rules = [];
      current_agents = [];
      in_block = false;
    }) in
    apply_rules (rules_of p) path
