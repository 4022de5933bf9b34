-- ===== src/Crawl/Gate.antt =====
-- Admission's rules (_normalise, _filtered, _Gate and _count of
-- api/app/workflows/activities/crawls.py). urllib's urlsplit, urlunsplit and strip, the suffix list
-- behind registrable_domain, and the resolver behind validate_no_ssrf_core are parameters.
use scrapeflow.Base.{
  startswith, ℕ, ◌+◌, Bool, true, false, not, ◌&&◌, Option, none, some, List, [], ◌∷◌, ◌==◌,
  if◌then◌else◌, any, count,
}
use scrapeflow.Crawl.{
  Crawl, Reason, invalid, out_of_scope, filtered, ssrf, unresolved, DropKey, page_drop,
  sitemap_drop,
}

-- How a URL reached the frontier.
pub data Source : Type 0 where
  seed link sitemap sitemap_file : Source

-- The scheme in lower case.
pub data Scheme : Type 0 where
  http https other : Scheme

-- `hostname` is none where it is None or empty.
pub record UrlParts : Type 0 where
  pub scheme : Scheme
  pub hostname : Option ℕ
  pub path : List ℕ
  pub query : Option ℕ
  pub fragment : Option ℕ

-- validate_no_ssrf_core: returns, or raises a ValueError that says the host is not resolved or
-- another.
pub data SsrfCheck : Type 0 where
  passes could_not_be_resolved refused : SsrfCheck

pub record UrlLibrary : Type 0 where
  pub strip : ℕ → ℕ
  -- none when it raises a ValueError
  pub urlsplit : ℕ → Option UrlParts
  pub urlunsplit : UrlParts → ℕ
  pub registrable_domain : ℕ → ℕ
  pub validate_no_ssrf : ℕ → SsrfCheck

abbrev is_web : Scheme → Bool
is_web Scheme.other = false
is_web _ = true

unfoldable pub normalise : UrlLibrary → ℕ → Option ℕ
normalise u url = elim (u.urlsplit (u.strip url)) [
  | none ↦ none
  | some parts ↦
      if is_web parts.scheme
      then elim parts.hostname [
        | none ↦ none
        | some host ↦ some (u.urlunsplit (record parts { fragment = none }))
      ]
      else none
]

abbrev slash : ℕ
slash = 47

-- `urlsplit(url).path or "/"`; the URL is normalised, so it splits.
abbrev path_of : UrlLibrary → ℕ → List ℕ
path_of u url = elim (u.urlsplit url) [
  | none ↦ slash ∷ []
  | some parts ↦ elim parts.path [ [] ↦ slash ∷ [] | c ∷ rest ↦ c ∷ rest ]
]

abbrev is_empty : List (List ℕ) → Bool
is_empty [] = true
is_empty (p ∷ ps) = false

unfoldable pub is_filtered : UrlLibrary → ℕ → Crawl → Bool
is_filtered u url c =
    let path = path_of u url in
    if not (is_empty c.include_paths) && not (any (startswith path) c.include_paths)
    then true
    else not (is_empty c.exclude_paths) && any (startswith path) c.exclude_paths

-- _Gate._hosts: what each host's lookup gave in this call.
abbrev pub Hosts : Type 0
Hosts = List (Option ℕ × Option Reason)

abbrev same_host : Option ℕ → Option ℕ → Bool
same_host none none = true
same_host (some a) (some b) = a == b
same_host _ _ = false

abbrev lookup_host : Option ℕ → Hosts → Option (Option Reason)
lookup_host host [] = none
lookup_host host ((h, answer) ∷ rest) =
    let later = lookup_host host rest in if same_host h host then some answer else later

abbrev hostname_of : UrlLibrary → ℕ → Option ℕ
hostname_of u url = elim (u.urlsplit url) [ none ↦ none | some parts ↦ parts.hostname ]

abbrev looked_up : SsrfCheck → Option Reason
looked_up passes = none
looked_up could_not_be_resolved = some unresolved
looked_up refused = some ssrf

unfoldable pub gate_ssrf : UrlLibrary → ℕ → Hosts → Hosts × Option Reason
gate_ssrf u url hosts = elim (lookup_host (hostname_of u url) hosts) [
  | some answer ↦ (hosts, answer)
  | none ↦
      let answer = looked_up (u.validate_no_ssrf url) in
      ((hostname_of u url, answer) ∷ hosts, answer)
]

abbrev is_sitemap_source : Source → Bool
is_sitemap_source sitemap = true
is_sitemap_source sitemap_file = true
is_sitemap_source _ = false

abbrev is_filtered_source : Source → Bool
is_filtered_source link = true
is_filtered_source sitemap = true
is_filtered_source _ = false

unfoldable pub gate_reason : UrlLibrary → Crawl → ℕ → Source → Hosts → Hosts × Option Reason
unfolding is_filtered gate_ssrf
gate_reason u c url source hosts =
    let scope = u.registrable_domain c.seed_url in
    if is_sitemap_source source && not (u.registrable_domain url == scope)
    then (hosts, some out_of_scope)
    else if is_filtered_source source && is_filtered u url c
    then (hosts, some filtered)
    else gate_ssrf u url hosts

abbrev reason_code : Reason → ℕ
reason_code invalid = 0
reason_code out_of_scope = 1
reason_code filtered = 2
reason_code ssrf = 3
reason_code unresolved = 4

abbrev same_key : DropKey → DropKey → Bool
same_key (page_drop a) (page_drop b) = reason_code a == reason_code b
same_key (sitemap_drop a) (sitemap_drop b) = reason_code a == reason_code b
same_key _ _ = false

-- crawl.dropped with each reason counted once more per occurrence.
unfoldable pub count_dropped : Crawl → List DropKey → Crawl
count_dropped c reasons = record c { dropped = λ key. c.dropped key + count (same_key key) reasons }
