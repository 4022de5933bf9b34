-- ===== src/ValidateRules/RoundTrip.antt =====
-- Tokens that are written as a JSON Pointer are read back.
use scrapeflow.Base.{ℕ, ◌≡◌, refl, ap, ◌∙◌, arith, false, List, [], ◌∷◌, ◌++◌, ◌==◌, if◌then◌else◌}
use scrapeflow.ValidateRules.Pointer.{
  tilde, slash, digit_0, digit_1, split_rest, split, replace_from, unescape, tokens, map_tokens,
}

-- RFC 6901: "~" is written "~0" and "/" is written "~1".
abbrev pub escape : List ℕ → List ℕ
escape [] = []
escape (c ∷ token) =
    let rest = escape token in
    if c == tilde
    then tilde ∷ digit_0 ∷ rest
    else if c == slash
    then tilde ∷ digit_1 ∷ rest
    else c ∷ rest

abbrev pub print : List (List ℕ) → List ℕ
print [] = []
print (t ∷ ts) = slash ∷ escape t ++ print ts

-- Behind the first pass: "~" is still written "~0".
abbrev half : List ℕ → List ℕ
half [] = []
half (c ∷ token) = let rest = half token in if c == tilde then tilde ∷ digit_0 ∷ rest else c ∷ rest

first_pass : (t : List ℕ) → replace_from digit_1 slash false (escape t) ≡ half t
unfolding replace_from
first_pass [] = refl
first_pass (c ∷ t) = ground (arith, first_pass t)

second_pass : (t : List ℕ) → replace_from digit_0 tilde false (half t) ≡ t
unfolding replace_from
second_pass [] = refl
second_pass (c ∷ t) = ground (arith, second_pass t)

unescape-escape : (t : List ℕ) → unescape (escape t) ≡ t
unfolding unescape
unescape-escape t = ap (λ s. replace_from digit_0 tilde false s) (first_pass t) ∙ second_pass t

-- A token has no slash once it is escaped.
split_token :
    (t text : List ℕ) (first : List ℕ) (others : List (List ℕ))
    → split_rest text ≡ (first, others)
    → split_rest (escape t ++ text) ≡ (escape t ++ first, others)
unfolding split_rest
split_token [] text first others h = h
split_token (c ∷ t) text first others h = ground (arith, split_token t text first others h)

append_nil : (xs : List ℕ) → xs ++ [] ≡ xs
append_nil [] = refl
append_nil (x ∷ xs) = ap (λ ys. x ∷ ys) (append_nil xs)

escape_all : List (List ℕ) → List (List ℕ)
escape_all [] = []
escape_all (t ∷ ts) = escape t ∷ escape_all ts

split_print : (ts : List (List ℕ)) → split_rest (print ts) ≡ ([], escape_all ts)
unfolding split_rest escape_all
split_print [] = refl
split_print (t ∷ ts) =
    rw (split_token t (print ts) [] (escape_all ts) (split_print ts), append_nil (escape t)) refl

unescape_all : (ts : List (List ℕ)) → map_tokens (escape_all ts) ≡ ts
unfolding escape_all
unescape_all [] = refl
unescape_all (t ∷ ts) = rw (unescape-escape t, unescape_all ts) refl

-- Any tokens, "~" and "/" included, that are written as a JSON Pointer are what tokens reads of it.
pub tokens-print : (ts : List (List ℕ)) → tokens (print ts) ≡ ts
unfolding tokens split
tokens-print [] = refl
tokens-print (t ∷ ts) =
    rw
      (
        split_token t (print ts) [] (escape_all ts) (split_print ts),
        append_nil (escape t),
        unescape-escape t,
        unescape_all ts,
      )
      refl
