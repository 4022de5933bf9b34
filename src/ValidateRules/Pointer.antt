-- ===== src/ValidateRules/Pointer.antt =====
-- _resolve of llm-worker/worker/rules.py: a JSON Pointer (RFC 6901) into a value.
use scrapeflow.Base.{
  ℕ, zero, suc, ◌+◌, ◌-◌, ◌*◌, Bool, false, not, ◌&&◌, Option, none, some, List, [], ◌∷◌, ltb, leb,
  ◌==◌, all, if◌then◌else◌,
}
use scrapeflow.ValidateRules.Json.{Json, array, object, Elements, no_elements, element, get}

abbrev pub tilde : ℕ
tilde = 126

abbrev pub slash : ℕ
slash = 47

abbrev pub digit_0 : ℕ
digit_0 = 48

abbrev pub digit_1 : ℕ
digit_1 = 49

-- The pieces between the slashes: the first, and the others.
unfoldable pub split_rest : List ℕ → List ℕ × List (List ℕ)
split_rest [] = ([], [])
split_rest (c ∷ text) =
    let (first, others) = split_rest text in
    if c == slash then ([], first ∷ others) else (c ∷ first, others)

-- text.split("/")
unfoldable pub split : List ℕ → List (List ℕ)
unfolding split_rest
split text = let (first, others) = split_rest text in first ∷ others

-- text.replace("~" + k, r), from left to right; `waiting` when a tilde has been read and not written.
unfoldable pub replace_from : ℕ → ℕ → Bool → List ℕ → List ℕ
replace_from k r waiting [] = if waiting then tilde ∷ [] else []
replace_from k r waiting (c ∷ text) =
    let hit = waiting && (c == k) in
    let waits = not hit && (c == tilde) in
    let rest = replace_from k r waits text in
    if hit
    then r ∷ rest
    else let rest' = if waits then rest else c ∷ rest in if waiting then tilde ∷ rest' else rest'

unfoldable pub unescape : List ℕ → List ℕ
unfolding replace_from
unescape token = replace_from digit_0 tilde false (replace_from digit_1 slash false token)

abbrev pub map_tokens : List (List ℕ) → List (List ℕ)
map_tokens [] = []
map_tokens (t ∷ ts) = unescape t ∷ map_tokens ts

-- The tokens of a pointer that is not empty: what stands before its first slash is dropped.
unfoldable pub tokens : List ℕ → List (List ℕ)
unfolding split unescape
tokens [] = []
tokens (c ∷ text) = map_tokens (split text)

abbrev pub is_digit : ℕ → Bool
is_digit c = leb digit_0 c && ltb c 58

-- int(token), of digits
abbrev pub int_from : ℕ → List ℕ → ℕ
int_from n [] = n
int_from n (c ∷ token) = int_from (n * 10 + (c - digit_0)) token

-- `token.isdigit() and (token == "0" or not token.startswith("0"))`, and its int.
unfoldable pub index_of : List ℕ → Option ℕ
index_of [] = none
index_of (c ∷ []) = if is_digit c then some (c - digit_0) else none
index_of (c ∷ d ∷ token) =
    if all is_digit (c ∷ d ∷ token) && not (c == digit_0)
    then some (int_from 0 (c ∷ d ∷ token))
    else none

-- The element at a position, if there is one.
abbrev pub nth : Elements → ℕ → Option Json
nth no_elements n = none
nth (element v vs) zero = some v
nth (element v vs) (suc n) = nth vs n

-- One turn of the loop.
unfoldable pub enter : Json → List ℕ → Option Json
unfolding index_of
enter (object ms) token = get ms token
enter (array es) token = elim (index_of token) [ none ↦ none | some n ↦ nth es n ]
enter _ token = none

unfoldable pub follow : Json → List (List ℕ) → Option Json
unfolding enter
follow node [] = some node
follow node (t ∷ ts) = elim (enter node t) [ none ↦ none | some next ↦ follow next ts ]

-- `none` is _MISSING.
unfoldable pub resolve : Json → List ℕ → Option Json
unfolding tokens follow
resolve doc pointer = follow doc (tokens pointer)
