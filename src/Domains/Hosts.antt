-- ===== src/Domains/Hosts.antt =====
-- Which hosts service/src/domains.ts authorizes for a tenant.
use vcalm_status_service.Common.{
  String, ◌≡◌, refl, ◌∙◌, Bool, false, ◌||◌, Option, none, some, List, [], ◌∷◌, ◌==◌, arith,
  string_eq, contains, any, contains-add, get_or, Option-cases, inl, inr,
}
use vcalm_status_service.Tenants.{TenantRecord}
use vcalm_status_service.Domains.{
  Url, hostname, hostname_if_given, add_hosts, authorized_hosts, is_authorized_host, add_host,
}

-- The domain has this host.
abbrev pub has_host : String → Option String → Bool
has_host wanted none = false
has_host wanted (some host) = host == wanted

-- Both are there, and the same.
abbrev pub same_host : Option String → Option String → Bool
same_host none own = false
same_host (some wanted) own = has_host wanted own

or_false : (a b : Bool) → (a || (b || false)) ≡ (a || b)
or_false a b = ground arith

module _ (parse_url : String → Option Url) where
  contains-add_host :
      (wanted : String) (host : Option String) (hosts : List String)
      → contains wanted (add_host parse_url host hosts)
        ≡ (has_host wanted host || contains wanted hosts)
  contains-add_host wanted none hosts = refl
  contains-add_host wanted (some host) hosts = contains-add host wanted hosts

  contains-add_hosts :
      (wanted : String) (domains hosts : List String)
      → contains wanted (add_hosts parse_url domains hosts)
        ≡ (any (λ d. has_host wanted (hostname parse_url d)) domains || contains wanted hosts)
  contains-add_hosts wanted [] hosts = refl
  contains-add_hosts wanted (d ∷ ds) hosts = ground (
    arith,
    contains-add_hosts wanted ds (add_host parse_url (hostname parse_url d) hosts),
    contains-add_host wanted (hostname parse_url d) hosts,
  )

  -- A host with a name is authorized for a tenant exactly if that name is the name of one of the
  -- tenant's domains or of the service's own URL.
  pub is_authorized_host_lem :
      (tenant : TenantRecord) (host wanted public_base_url : String)
      → hostname parse_url host ≡ some wanted
      → is_authorized_host parse_url tenant (some host) public_base_url ≡ (
          any (λ d. has_host wanted (hostname parse_url d)) (get_or tenant.authorized_domains [])
          || has_host wanted (hostname parse_url public_base_url))
  unfolding is_authorized_host authorized_hosts
  is_authorized_host_lem tenant host wanted public_base_url h =
      rw
        (
          h,
          contains-add_hosts wanted (get_or tenant.authorized_domains [])
              (add_host parse_url (hostname parse_url public_base_url) []),
          contains-add_host wanted (hostname parse_url public_base_url) [],
        )
        (or_false _ _)

  -- A tenant that lists no domains is served exactly under hosts with the name of the service's own
  -- URL, and under no host where the request has none.
  pub is_authorized_host_unlisted :
      (tenant : TenantRecord) (host : Option String) (public_base_url : String)
      → tenant.authorized_domains ≡ none
      → is_authorized_host parse_url tenant host public_base_url
        ≡ same_host (hostname_if_given parse_url host) (hostname parse_url public_base_url)
  unfolding is_authorized_host authorized_hosts
  is_authorized_host_unlisted tenant none public_base_url h = refl
  is_authorized_host_unlisted tenant (some host) public_base_url h =
      elim (Option-cases (hostname parse_url host)) [
        | inl nowhere ↦ rw nowhere
        | inr (wanted, e) ↦ is_authorized_host_lem tenant host wanted public_base_url e ∙ rw (h, e)
      ]
