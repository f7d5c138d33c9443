-- ===== src/Tenants/Env/Registry.antt =====
-- Which tokens `EnvTenantRegistry` of service/src/services/tenants-env.ts lets in.
use mathlib.Core.Path.{subst}
use vcalm_status_service.Common.{
  String, ◌≡◌, ◌≢◌, refl, sym, ap, ◌∙◌, inl, inr, Bool, true, false, not, Option, none, some, List,
  [], ◌∷◌, map, arith, ◌==◌, string_eq, contains, filter, Member, eq_iff, beq_ne, Bool-cases,
}
use vcalm_status_service.Common.Dict
use vcalm_status_service.Common.Text.{◌⧺◌}
use vcalm_status_service.Common.Ascii.{lower_case, trim, split}
use vcalm_status_service.Errors.{Result, ok, err}
use vcalm_status_service.Errors.Results.{>>=-eq-ok}
use vcalm_status_service.Tenants.{TenantRecord}
use vcalm_status_service.Tenants.Memory.{
  MemoryTenantRegistry, empty_registry, add_all, get_tenant_by_token, tenant_of, IsValid,
  add_all-IsValid,
}
use vcalm_status_service.Tenants.Env.{
  Env, list, parse_entries, sort_by_id, parse_tenants_from_env, constructed, env_registry,
}
use vcalm_status_service.Tenants.Env.Tokens.{owner, owner_of_tenant, owner_from}
use vcalm_status_service.Tenants.Env.Entries.{Member-sort, parsed_of_entry, entry_of_parsed}
use vcalm_status_service.Tenants.Env.Default.{parse_tenant-IsRead}

empty_registry-IsValid : IsValid empty_registry
empty_registry-IsValid = record { known = λ t o e. cc; keyed = λ i t e. cc }

not_listed_empty :
    (entries : List String) → contains "" (filter (λ entry. not (entry == "")) entries) ≡ false
not_listed_empty [] = refl
not_listed_empty (x ∷ xs) = ground (arith, eq_iff x "", not_listed_empty xs)

listed-nonempty : (value token : String) → contains token (list (some value)) ≡ true → token ≢ ""
listed-nonempty value token h e = cc (not_listed_empty (map trim (split b',' value)), rw e at h)

module _ (le : String → String → Bool) (env : Env) {m : MemoryTenantRegistry}
    (made : env_registry le env ≡ ok m) where
  record IsMade : Type 0 where
    tenants : List TenantRecord
    parsed : parse_entries env env ≡ ok tenants
    added : add_all (sort_by_id le tenants) empty_registry ≡ (ok tt, m)

  all_added : (x : Result (Unit {0}) × MemoryTenantRegistry) → constructed x ≡ ok m → x ≡ (ok tt, m)
  all_added (ok tt, n) h = cc
  all_added (err e, n) h = cc

  is_made : IsMade
  unfolding env_registry parse_tenants_from_env
  is_made =
      let (sorted, h1, h2) = >>=-eq-ok (parse_tenants_from_env le env) _ made in
      let (ts, h3, h4) = >>=-eq-ok (parse_entries env env) _ h1 in
      let same : sort_by_id le ts ≡ sorted = cc h4 in
      record { tenants = ts; parsed = h3; added = rw same (all_added _ h2) }

  is_valid : IsValid m
  is_valid =
      subst (λ (x : Result (Unit {0}) × MemoryTenantRegistry). IsValid x.1) (is_made.added)
        (add_all-IsValid (sort_by_id le (is_made.tenants)) empty_registry empty_registry-IsValid)

  -- In a registry that is made from an environment, each token that a variable TENANT_TOKEN_<name>
  -- lists gives a tenant, whose id is that name in lower case.
  pub env_registry_knows :
      (name value token : String)
      → Member ("TENANT_TOKEN_" ⧺ name, value) env
      → contains token (list (some value)) ≡ true
      → (t : TenantRecord) × (get_tenant_by_token m token ≡ some t)
        × (t.tenant_id ≡ lower_case name)
  unfolding get_tenant_by_token
  env_registry_knows name value token at listed =
      let (u, member, read) = parsed_of_entry env env name value (is_made.parsed) at in
      let is_read = parse_tenant-IsRead env name value read in
      let owned : owner m token ≡ some u.tenant_id =
        owner_of_tenant (sort_by_id le (is_made.tenants)) empty_registry token u (is_made.added)
          ((Member-sort le (is_made.tenants) u).1 member)
          (ap (contains token) is_read.tokens_read ∙ listed) in
      let (t, stored) = is_valid.known token (u.tenant_id) owned in
      (
        t,
        rw (beq_ne (listed-nonempty value token listed), owned) stored,
        is_valid.keyed (u.tenant_id) t stored ∙ is_read.id_read,
      )

  named_owner :
      (o : Option String) {t : TenantRecord}
      → tenant_of m o ≡ some t
      → (id : String) × (o ≡ some id) × (Dict.get id m.tenants ≡ some t)
  named_owner none h = cc
  named_owner (some id) h = (id, refl, h)

  given_token :
      (token : String) {t : TenantRecord}
      → get_tenant_by_token m token ≡ some t
      → tenant_of m (owner m token) ≡ some t
  unfolding get_tenant_by_token
  given_token token h = elim (Bool-cases (token == "")) [
    | inl blank ↦ cc (rw blank at h)
    | inr other ↦ rw other at h
  ]

  -- In a registry that is made from an environment, a token that gives a tenant is listed in a
  -- variable TENANT_TOKEN_<name>, and the tenant's id is that name in lower case.
  pub env_registry_only :
      (token : String) {t : TenantRecord}
      → get_tenant_by_token m token ≡ some t
      → (name value : String) × Member ("TENANT_TOKEN_" ⧺ name, value) env
        × (contains token (list (some value)) ≡ true)
        × (lower_case name ≡ t.tenant_id)
  env_registry_only token {t} h =
      let (id, owned, stored) = named_owner (owner m token) (given_token token h) in
      let keyed = is_valid.keyed id t stored in
      elim (owner_from (sort_by_id le (is_made.tenants)) empty_registry token id (is_made.added)
        owned) [
          | inl before ↦ cc before
          | inr (u, member, has, same) ↦
              let (name, value, at, read) =
                entry_of_parsed env env u (is_made.parsed)
                  ((Member-sort le (is_made.tenants) u).0 member) in
              let is_read = parse_tenant-IsRead env name value read in
              (
                name,
                value,
                at,
                sym (ap (contains token) is_read.tokens_read) ∙ has,
                sym is_read.id_read ∙ same ∙ sym keyed,
              )
        ]
