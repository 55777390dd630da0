-- ===== src/Merchant/Policy.antt =====
-- What a resolved quote policy guarantees, and when a request has one (src/merchant.ts).
use Prim.Native.String
use perk_os_nayori_platform.Prelude.{
  ℕ, ◌≤◌, String, ◌≡◌, ◌↔◌, ◌⊎◌, inl, inr, true, Option, none, some, arith, eq_iff, if◌then◌else◌,
  Bool-cases, Option-cases, ≡→eq, eq-cases, includes, ok, err,
}
use perk_os_nayori_platform.Prelude.Map.{get}
use perk_os_nayori_platform.Prelude.Text.{starts_with_cases, starts_with-append, ends_with}
use perk_os_nayori_platform.Merchant.{
  Network, MerchantRecord, QuoteRequest, Url, path_matches_prefix, unknown_route,
  ResolvedQuotePolicy, resolve_quote_policy,
}

-- A path under a prefix: the prefix itself, or a path that goes on with a new segment.
abbrev pub IsUnder : String → String → Type 0
IsUnder pathname prefix =
    (pathname ≡ prefix)
    ⊎ ((rest : String) × (pathname ≡ (
          if ends_with prefix b'/'
          then String.◌++◌ prefix rest
          else String.◌++◌ (String.◌++◌ prefix "/") rest)))

-- A route's prefix matches exactly the paths under it, so never a longer first segment.
pub path_matches_prefix_iff :
    (pathname prefix : String)
    → (path_matches_prefix pathname prefix ≡ true) ↔ IsUnder pathname prefix
unfolding path_matches_prefix
path_matches_prefix_iff pathname prefix = (
  λ h. elim (eq-cases pathname prefix) [
    | inl same ↦ inl same
    | inr other ↦ inr (elim (Bool-cases (ends_with prefix b'/')) [
      | inl slash ↦ rw slash (starts_with_cases pathname prefix (ground arith))
      | inr bare ↦ rw bare (starts_with_cases pathname (String.◌++◌ prefix "/") (ground arith))
    ])
  ],
  λ h. elim h [
    | inl same ↦ ground (arith, ≡→eq pathname prefix same)
    | inr (rest, e) ↦ elim (Bool-cases (ends_with prefix b'/')) [
      | inl slash ↦ ground (arith, starts_with-append prefix rest)
      | inr bare ↦ ground (arith, starts_with-append (String.◌++◌ prefix "/") rest)
    ]
  ],
)

module _ (canonicalize : String → Option String) (parse_url : String → Url) where
  -- The conditions under which a route serves a request.
  pub record Serves (merchant : MerchantRecord) (request : QuoteRequest) (configured : Network)
      (maximum_ttl : ℕ) (policy : ResolvedQuotePolicy) : Type 0 where
    pub listed : get request.route_id merchant.routes ≡ some policy.route
    pub method : policy.route.method ≡ request.method
    pub network : policy.route.network ≡ configured
    pub short : policy.route.ttl_seconds ≤ maximum_ttl
    pub audience : includes merchant.allowed_audiences policy.route.audience ≡ true
    pub recipient : includes merchant.recipient_allowlist policy.route.pay_to ≡ true
    pub canonical : canonicalize request.url ≡ some policy.canonical_url
    pub https : (parse_url policy.canonical_url).protocol ≡ "https:"
    pub origin : includes merchant.allowed_origins (parse_url policy.canonical_url).origin ≡ true
    pub path : IsUnder (parse_url policy.canonical_url).pathname policy.route.path_prefix

  resolved-Serves :
      (merchant : MerchantRecord) (request : QuoteRequest) (network : Network) (maximum_ttl : ℕ)
      (policy : ResolvedQuotePolicy)
      → resolve_quote_policy canonicalize parse_url merchant request network maximum_ttl ≡ ok policy
      → Serves merchant request network maximum_ttl policy
  unfolding resolve_quote_policy
  resolved-Serves merchant request network maximum_ttl policy h =
      elim (Option-cases (get request.route_id merchant.routes)) [
        | inl absent ↦ ground arith
        | inr (route, listed) ↦ elim (Option-cases (canonicalize request.url)) [
          | inl invalid ↦ ground arith
          | inr (url, canonical) ↦
              let e : policy ≡ record { route = route; canonical_url = url } = ground arith in
              rw e (record {
                listed = listed;
                method = ground (arith, eq_iff route.method request.method);
                network = ground arith;
                short = ground arith;
                audience = ground arith;
                recipient = ground arith;
                canonical = canonical;
                https = ground (arith, eq_iff (parse_url url).protocol "https:");
                origin = ground arith;
                path =
                    (path_matches_prefix_iff (parse_url url).pathname route.path_prefix).0
                      (ground arith);
              })
        ]
      ]

  Serves-resolved :
      (merchant : MerchantRecord) (request : QuoteRequest) (network : Network) (maximum_ttl : ℕ)
      (policy : ResolvedQuotePolicy)
      → Serves merchant request network maximum_ttl policy
      → resolve_quote_policy canonicalize parse_url merchant request network maximum_ttl ≡ ok policy
  unfolding resolve_quote_policy
  Serves-resolved merchant request network maximum_ttl policy s =
      let path =
        (path_matches_prefix_iff (parse_url policy.canonical_url).pathname
            policy.route.path_prefix).1
          s.path in
      ground (
        arith,
        s,
        path,
        eq_iff policy.route.method request.method,
        eq_iff (parse_url policy.canonical_url).protocol "https:",
      )

  -- A policy is resolved exactly if the merchant's route serves the request: listed under the
  -- requested id, with its method, network, a time to live within the limit, an allowed audience
  -- and recipient, and a canonical HTTPS URL of an allowed origin under the route's path.
  pub resolve_quote_policy_iff :
      (merchant : MerchantRecord) (request : QuoteRequest) (network : Network) (maximum_ttl : ℕ)
      (policy : ResolvedQuotePolicy)
      → (resolve_quote_policy canonicalize parse_url merchant request network maximum_ttl
          ≡ ok policy)
        ↔ Serves merchant request network maximum_ttl policy
  resolve_quote_policy_iff merchant request network maximum_ttl policy = (
    λ h. resolved-Serves merchant request network maximum_ttl policy h,
    λ s. Serves-resolved merchant request network maximum_ttl policy s,
  )

  -- Only a route that is not listed is reported as unknown.
  pub unknown_route_iff :
      (merchant : MerchantRecord) (request : QuoteRequest) (network : Network) (maximum_ttl : ℕ)
      → (resolve_quote_policy canonicalize parse_url merchant request network maximum_ttl
          ≡ err unknown_route)
        ↔ (get request.route_id merchant.routes ≡ none)
  unfolding resolve_quote_policy
  unknown_route_iff merchant request network maximum_ttl = (λ h. ground arith, λ h. ground arith)
