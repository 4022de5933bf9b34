-- ===== src/Security.antt =====
-- The address check on outgoing URLs (api/app/core/security.py). urllib's hostname and the resolver
-- are parameters, and so are ipaddress's four tests of an address.
use scrapeflow.Base.{Bool, ◌||◌, Option, none, some, List, [], ◌∷◌, ℕ, if◌then◌else◌}

pub record Address : Type 0 where
  pub is_loopback : Bool
  pub is_private : Bool
  pub is_link_local : Bool
  pub is_reserved : Bool

pub record Resolver : Type 0 where
  -- urlparse(url).hostname; none where it is None or empty
  pub hostname : ℕ → Option ℕ
  -- none for a gaierror
  pub getaddrinfo : ℕ → Option (List Address)

-- The ValueErrors.
pub data SsrfError : Type 0 where
  no_hostname not_resolved private_address : SsrfError

abbrev pub is_internal : Address → Bool
is_internal ip = ip.is_loopback || ip.is_private || ip.is_link_local || ip.is_reserved

unfoldable pub check_addresses : List Address → Option SsrfError
check_addresses [] = none
check_addresses (ip ∷ rest) =
    let later = check_addresses rest in if is_internal ip then some private_address else later

-- `none` returns; `some` is the ValueError.
unfoldable pub validate_no_ssrf_core : Resolver → ℕ → Option SsrfError
unfolding check_addresses
validate_no_ssrf_core r url = elim (r.hostname url) [
  | none ↦ some no_hostname
  | some host ↦ elim (r.getaddrinfo host) [
    | none ↦ some not_resolved
    | some results ↦ check_addresses results
  ]
]

pub data SsrfStatus : Type 0 where
  -- 422
  unprocessable : SsrfError → SsrfStatus
  -- 400
  bad_request : SsrfError → SsrfStatus

abbrev pub ssrf_status : SsrfError → SsrfStatus
ssrf_status private_address = bad_request private_address
ssrf_status error = unprocessable error

-- The route's check: `some` is the HTTPException.
unfoldable pub validate_no_ssrf : Resolver → ℕ → Option SsrfStatus
unfolding validate_no_ssrf_core
validate_no_ssrf r url = elim (validate_no_ssrf_core r url) [
  | none ↦ none
  | some error ↦ some (ssrf_status error)
]
