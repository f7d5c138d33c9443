-- ===== src/Domains.antt =====
-- service/src/domains.ts: the hosts that a tenant's lists are served under. The platform's `URL` is
-- a parameter: its three parts that are read, and `none` where the constructor throws.
pub mod Hosts
use Prim.Native.Char.{code}
use Prim.Native.String
use vcalm_status_service.Common.{
  ℕ, String, Bool, true, false, ◌&&◌, ◌||◌, Option, none, some, List, [], ◌∷◌, ◌==◌, string_eq,
  nat_eq, if◌then◌else◌, contains, add, get_or, leb,
}
use vcalm_status_service.Common.Text.{◌⧺◌}
use vcalm_status_service.Common.Ascii.{lower_case, trim, cut}
use vcalm_status_service.Tenants.{TenantRecord}

pub record Url : Type 0 where
  pub protocol : String
  pub hostname : String
  pub pathname : String

-- The headers that are read, and the URL of the request.
pub record HostHeaders : Type 0 where
  pub forwarded_host : Option String
  pub host : Option String
  pub url : String

abbrev is_letter : ℕ → Bool
is_letter c = leb b'a' c && leb c b'z' || leb b'A' c && leb c b'Z'

abbrev is_scheme_rest : ℕ → Bool
is_scheme_rest c = is_letter c || leb b'0' c && leb c b'9' || c == b'+' || c == b'.' || c == b'-'

-- `:` and two slashes, at the start.
abbrev starts_with_slashes : String → Bool
starts_with_slashes (String.◌∷◌ a (String.◌∷◌ b (String.◌∷◌ c _))) =
    code a == b':' && code b == b'/' && code c == b'/'
starts_with_slashes _ = false

abbrev scheme_goes_on : String → Bool
scheme_goes_on String.[] = false
scheme_goes_on (String.◌∷◌ c s) =
    starts_with_slashes (String.◌∷◌ c s) || is_scheme_rest (code c) && scheme_goes_on s

-- `/^[a-z][a-z0-9+.-]*:\/\//i`
abbrev pub has_scheme : String → Bool
has_scheme String.[] = false
has_scheme (String.◌∷◌ c s) = is_letter (code c) && scheme_goes_on s

-- The text up to the first comma.
abbrev first_entry : Option String → Option String
first_entry none = none
first_entry (some s) = some (cut b',' s).0

-- `a ?? b`, where both may be missing
abbrev or_else : Option String → Option String → Option String
or_else none b = b
or_else (some a) b = some a

abbrev host_part : Option Url → Option String
host_part none = none
host_part (some u) = if u.hostname == "" then none else some (lower_case u.hostname)

module _ (parse_url : String → Option Url) where
  abbrev hostname_of : String → Option String
  hostname_of trimmed =
      if trimmed == ""
      then none
      else host_part (parse_url (if has_scheme trimmed then trimmed else "http://" ⧺ trimmed))

  -- `hostname`, of a text
  unfoldable pub hostname : String → Option String
  hostname value = hostname_of (trim value)

  abbrev pub hostname_if_given : Option String → Option String
  hostname_if_given none = none
  hostname_if_given (some value) = hostname value

  -- `effectiveHost`
  unfoldable pub effective_host : HostHeaders → Option String
  effective_host h =
      or_else (hostname_if_given (first_entry h.forwarded_host))
        (or_else (hostname_if_given h.host) (hostname h.url))

  -- `hosts.add(host)`, if there is a host
  abbrev pub add_host : Option String → List String → List String
  add_host none hosts = hosts
  add_host (some host) hosts = add host hosts

  abbrev pub add_hosts : List String → List String → List String
  add_hosts [] hosts = hosts
  add_hosts (domain ∷ domains) hosts = add_hosts domains (add_host (hostname domain) hosts)

  -- `authorizedHosts`
  unfoldable pub authorized_hosts : TenantRecord → String → List String
  authorized_hosts tenant public_base_url =
      add_hosts (get_or tenant.authorized_domains []) (add_host (hostname public_base_url) [])

  abbrev pub is_authorized : Option String → TenantRecord → String → Bool
  is_authorized none tenant public_base_url = false
  is_authorized (some wanted) tenant public_base_url =
      contains wanted (authorized_hosts tenant public_base_url)

  -- `isAuthorizedHost`
  unfoldable pub is_authorized_host : TenantRecord → Option String → String → Bool
  is_authorized_host tenant host public_base_url =
      is_authorized (hostname_if_given host) tenant public_base_url

  abbrev is_authorized_url : Option Url → TenantRecord → String → Bool
  is_authorized_url none tenant public_base_url = false
  is_authorized_url (some u) tenant public_base_url =
      if u.protocol == "https:" || u.protocol == "http:"
      then contains (lower_case u.hostname) (authorized_hosts tenant public_base_url)
      else false

  -- `isAuthorizedListUrl`
  unfoldable pub is_authorized_list_url : TenantRecord → String → String → Bool
  is_authorized_list_url tenant url public_base_url =
      is_authorized_url (parse_url url) tenant public_base_url
