-- ===== src/PipelineRoutes/ExternalUrls.antt =====
-- The URLs that create_run fetches or calls resolve to no loopback, private, link-local or reserved
-- address: its steps in Checked, its address checks.
use scrapeflow.Base.{
  ℕ, ◌≡◌, refl, false, Option, none, some, List, [], ◌∷◌, All, arith, Option-cases, Bool-cases, inl,
  inr,
}
use scrapeflow.Catalog.{
  ScrapeConfig, clean_config, validate_config, Config, scrape_config, webhook_config,
  llm_extract_config,
}
use scrapeflow.PipelineWorkflow.Calls.{RunBlock}
use scrapeflow.Security.{
  Resolver, Address, is_internal, check_addresses, validate_no_ssrf_core, validate_no_ssrf,
}
use scrapeflow.PipelineRoutes.{UserLlmKey, Checked, refused, passed, ◌>>=◌}
use scrapeflow.PipelineRoutes.CheckRun.{
  check_optional, Inputs, Env, value_of, checked_url, check_block, check_blocks, check_keys,
  ssrf_check,
}

pub >>=-passed {ℓ κ} :
    {A : Type ℓ} {B : Type κ} (m : Checked A) (f : A → Checked B) {b : B}
    → (m >>= f) ≡ passed b
    → (a : A) × (m ≡ passed a) × (f a ≡ passed b)
>>=-passed (passed a) f h = (a, refl, h)
>>=-passed (refused r) f h = cc

-- A step that passed, with what came after.
pub >>=-when {ℓ κ μ} :
    {A : Type ℓ} {B : Type κ} {P : Type μ} (m : Checked A) (f : A → Checked B) {b : B}
    → ((a : A) → m ≡ passed a → f a ≡ passed b → P)
    → (m >>= f) ≡ passed b
    → P
>>=-when (passed a) f k h = k a refl h
>>=-when (refused r) f k h = cc

-- None of ipaddress's four tests that are asked. An address that passes need not be public: one of
-- 100.64.0.0/10 or a multicast address passes.
pub record AddressIsExternal (ip : Address) : Type 0 where
  pub not_loopback : ip.is_loopback ≡ false
  pub not_private : ip.is_private ≡ false
  pub not_link_local : ip.is_link_local ≡ false
  pub not_reserved : ip.is_reserved ≡ false

-- The host resolves, and to no loopback, private, link-local or reserved address.
pub record IsExternal (r : Resolver) (url : ℕ) : Type 0 where
  pub host : ℕ
  pub hostname : r.hostname url ≡ some host
  pub addresses : List Address
  pub resolved : r.getaddrinfo host ≡ some addresses
  pub external : All AddressIsExternal addresses

not_internal : (ip : Address) → is_internal ip ≡ false → AddressIsExternal ip
not_internal ip h = record {
  not_loopback = ground arith;
  not_private = ground arith;
  not_link_local = ground arith;
  not_reserved = ground arith;
}

check_addresses_external :
    (ips : List Address) → check_addresses ips ≡ none → All AddressIsExternal ips
unfolding check_addresses
check_addresses_external [] h = tt
check_addresses_external (ip ∷ rest) h = elim (Bool-cases (is_internal ip)) [
  | inl e ↦ absurd (ground arith)
  | inr e ↦ (not_internal ip e, check_addresses_external rest (ground arith))
]

resolved-IsExternal :
    (r : Resolver) (url host : ℕ)
    → r.hostname url ≡ some host
    → validate_no_ssrf_core r url ≡ none
    → IsExternal r url
unfolding validate_no_ssrf_core
resolved-IsExternal r url host e h = elim (Option-cases (r.getaddrinfo host)) [
  | inl n ↦ absurd (ground arith)
  | inr (ips, f) ↦ record {
    host = host;
    hostname = e;
    addresses = ips;
    resolved = f;
    external = check_addresses_external ips (ground arith);
  }
]

validate-IsExternal :
    (r : Resolver) (url : ℕ) → validate_no_ssrf_core r url ≡ none → IsExternal r url
unfolding validate_no_ssrf_core
validate-IsExternal r url h = elim (Option-cases (r.hostname url)) [
  | inl n ↦ absurd (ground arith)
  | inr (host, e) ↦ resolved-IsExternal r url host e h
]

pub ssrf_check-IsExternal :
    (r : Resolver) (url : ℕ) → ssrf_check r url ≡ passed tt → IsExternal r url
unfolding ssrf_check validate_no_ssrf
ssrf_check-IsExternal r url h = elim (Option-cases (validate_no_ssrf_core r url)) [
  | inl n ↦ validate-IsExternal r url n
  | inr (x, e) ↦ absurd (ground arith)
]

abbrev pub IfSome : {A : Type 0} → (A → Type 0) → Option A → Type 0
IfSome P none = Unit
IfSome P (some x) = P x

abbrev pub BoundIsExternal : Env → Inputs → ℕ → Option (List ℕ) → Type 0
BoundIsExternal e inputs url none = IsExternal e.resolver url
BoundIsExternal e inputs url (some name) =
    (value : ℕ) × (value_of inputs name ≡ some value) × IsExternal e.resolver value

-- The URL that the block fetches or calls resolves to no internal address.
abbrev pub UrlIsExternal : Env → Inputs → Config → Type 0
UrlIsExternal e inputs (scrape_config c) = BoundIsExternal e inputs c.url (e.binding c.url)
UrlIsExternal e inputs (webhook_config c) = IsExternal e.resolver c.url
UrlIsExternal e inputs _ = Unit

module _ (e : Env) (inputs : Inputs) where
  bound-UrlIsExternal :
      (c : ScrapeConfig) (name : List ℕ)
      → e.binding c.url ≡ some name
      → (checked_url e inputs (scrape_config c) >>= check_optional e.resolver) ≡ passed tt
      → UrlIsExternal e inputs (scrape_config c)
  bound-UrlIsExternal c name n h = elim (Option-cases (value_of inputs name)) [
    | inl v ↦ absurd (ground arith)
    | inr (url, v) ↦
        rw (n, UrlIsExternal) (url, v, ssrf_check-IsExternal e.resolver url (ground arith))
  ]

  scrape-UrlIsExternal :
      (c : ScrapeConfig)
      → (checked_url e inputs (scrape_config c) >>= check_optional e.resolver) ≡ passed tt
      → UrlIsExternal e inputs (scrape_config c)
  scrape-UrlIsExternal c h = elim (Option-cases (e.binding c.url)) [
    | inl n ↦ rw (n, UrlIsExternal) (ssrf_check-IsExternal e.resolver c.url (ground arith))
    | inr (name, n) ↦ bound-UrlIsExternal c name n h
  ]

  check-UrlIsExternal :
      (c : Config)
      → (checked_url e inputs c >>= check_optional e.resolver) ≡ passed tt
      → UrlIsExternal e inputs c
  check-UrlIsExternal (scrape_config c) h = scrape-UrlIsExternal c h
  check-UrlIsExternal clean_config h = tt
  check-UrlIsExternal (llm_extract_config c) h = tt
  check-UrlIsExternal (validate_config rules) h = tt
  check-UrlIsExternal (webhook_config c) h = ssrf_check-IsExternal e.resolver c.url h

  pub check_blocks-UrlIsExternal :
      (blocks : List RunBlock)
      → check_blocks e inputs blocks ≡ passed tt
      → All (λ b. UrlIsExternal e inputs b.config) blocks
  unfolding check_blocks check_block
  check_blocks-UrlIsExternal [] h = tt
  check_blocks-UrlIsExternal (b ∷ blocks) h =
      let (u, first, later) =
        >>=-passed (check_block e inputs b) (λ x. check_blocks e inputs blocks) h in
      (check-UrlIsExternal b.config first, check_blocks-UrlIsExternal blocks later)

-- Where the key has a base URL, it resolves to no internal address.
abbrev pub BaseUrlIsExternal : Resolver → UserLlmKey → Type 0
BaseUrlIsExternal r k = IfSome (IsExternal r) k.base_url

optional-IsExternal :
    (r : Resolver) (url : Option ℕ) → check_optional r url ≡ passed tt → IfSome (IsExternal r) url
optional-IsExternal r none h = tt
optional-IsExternal r (some url) h = ssrf_check-IsExternal r url h

pub check_keys-BaseUrlIsExternal :
    (r : Resolver) (keys : List UserLlmKey)
    → check_keys r keys ≡ passed tt
    → All (BaseUrlIsExternal r) keys
unfolding check_keys
check_keys-BaseUrlIsExternal r [] h = tt
check_keys-BaseUrlIsExternal r (k ∷ keys) h =
    let (u, first, later) = >>=-passed (check_optional r k.base_url) (λ x. check_keys r keys) h in
    (optional-IsExternal r k.base_url first, check_keys-BaseUrlIsExternal r keys later)
