-- ===== src/Tenants/Env/Default.antt =====
-- The default instance of a tenant that is read from the environment.
use mathlib.Core.Path.{subst}
use vcalm_status_service.Common.{
  String, ◌≡◌, ◌≢◌, refl, ap, ◌∙◌, Bool, true, false, none, some, List, [], ◌∷◌, arith, ◌==◌,
  string_eq, nat_eq, if◌then◌else◌, any, find, length, eq_iff, All,
}
use vcalm_status_service.Common.Dict
use vcalm_status_service.Common.Text.{◌⧺◌}
use vcalm_status_service.Common.Ascii.{lower_case, upper_case, trim}
use vcalm_status_service.Errors.{Result, ok}
use vcalm_status_service.Errors.Results.{>>=-eq-ok, check-eq-ok, refuse_if-eq-ok}
use vcalm_status_service.Tenants.{IssuerInstance, TenantRecord, resolve_issuer_instance}
use vcalm_status_service.Tenants.Env.{
  Env, list, trimmed, parse_issuer_instances, unknown_default, parse_tenant,
}
use vcalm_status_service.Tenants.Env.Instances.{IsUsable, parse_issuer_instances-IsUsable}

-- The variable that names the default instance of the tenant of a token key.
abbrev pub default_key : String → String
default_key name = "TENANT_DEFAULT_INSTANCE_" ⧺ upper_case (lower_case name)

-- What a tenant that is read was read from.
pub record IsRead (env : Env) (name value : String) (t : TenantRecord) : Type 0 where
  pub id_read : t.tenant_id ≡ lower_case name
  pub tokens_read : t.tokens ≡ list (some value)
  pub has_token : (length t.tokens == 0) ≡ false
  pub instances_read : parse_issuer_instances env (lower_case name) ≡ ok t.issuer_instances
  pub default_read : t.default_instance_id ≡ trimmed (Dict.get (default_key name) env)
  pub default_known : unknown_default t.default_instance_id t.issuer_instances ≡ false

ok_same :
    (P : TenantRecord → Type 0) (a t : TenantRecord)
    → ◌≡◌ {A = Result TenantRecord} (ok a) (ok t)
    → P a
    → P t
ok_same P a t h = subst P (cc)

pub parse_tenant-IsRead :
    (env : Env) (name value : String) {t : TenantRecord}
    → parse_tenant env name value ≡ ok t
    → IsRead env name value t
unfolding parse_tenant
parse_tenant-IsRead env name value {t} h =
    let (tokens, h1) = check-eq-ok _ _ h in
    let (instances, read, h2) = >>=-eq-ok (parse_issuer_instances env (lower_case name)) _ h1 in
    let (known, h3) = check-eq-ok _ _ h2 in
    ok_same (IsRead env name value) _ t h3 (record {
      id_read = refl;
      tokens_read = refl;
      has_token = refuse_if-eq-ok _ _ tokens;
      instances_read = read;
      default_read = refl;
      default_known = refuse_if-eq-ok _ _ known;
    })

found_of_any :
    (wanted : String) (is : List IssuerInstance)
    → any (λ i. i.id == wanted) is ≡ true
    → (i : IssuerInstance) × (find (λ j. j.id == wanted) is ≡ some i) × (i.id ≡ wanted)
found_of_any wanted [] h = cc
found_of_any wanted (i ∷ is) h = by_first (i.id == wanted) refl (found_of_any wanted is)
  where
    by_first :
        (b : Bool)
        → (i.id == wanted) ≡ b
        → (any (λ j. j.id == wanted) is ≡ true
            → (x : IssuerInstance) × (find (λ j. j.id == wanted) is ≡ some x) × (x.id ≡ wanted))
        → (x : IssuerInstance) × ((if i.id == wanted then some i else find (λ j. j.id == wanted) is)
            ≡ some x)
          × (x.id ≡ wanted)
    by_first true e rest = (i, rw e, (eq_iff (i.id) wanted).0 e)
    by_first false e rest = rw e (rest (rw e at h))

find_unnamed : (is : List IssuerInstance) → All IsUsable is → find (λ i. i.id == "") is ≡ none
find_unnamed [] a = refl
find_unnamed (i ∷ is) a =
    let named = (a.0).named in ground (arith, eq_iff (i.id) "", find_unnamed is a.1)

module _ (env : Env) (name value : String) {t : TenantRecord}
    (read : parse_tenant env name value ≡ ok t) (v : String)
    (set : Dict.get (default_key name) env ≡ some v) where
  default_is : t.default_instance_id ≡ some (trim v)
  default_is = (parse_tenant-IsRead env name value read).default_read ∙ ap trimmed set

  -- A tenant that is read where its variable for the default instance is set and not blank has an
  -- instance by that name, and resolves to it when no instance is asked for.
  pub parse_tenant_default :
      trim v ≢ ""
      → (i : IssuerInstance) × (resolve_issuer_instance t none ≡ some i) × (i.id ≡ trim v)
  unfolding resolve_issuer_instance
  parse_tenant_default named =
      let known = (parse_tenant-IsRead env name value read).default_known in
      rw default_is (
        found_of_any (trim v) (t.issuer_instances) (
          ground
            (arith, ap (λ d. unknown_default d t.issuer_instances) default_is, eq_iff (trim v) "")))

  -- A tenant that is read where its variable for the default instance is set but blank resolves to
  -- no instance when none is asked for, however many it has.
  pub parse_tenant_blank_default : trim v ≡ "" → resolve_issuer_instance t none ≡ none
  unfolding resolve_issuer_instance
  parse_tenant_blank_default blank =
      let is_read = parse_tenant-IsRead env name value read in
      rw (default_is, blank)
        (find_unnamed (t.issuer_instances)
          (parse_issuer_instances-IsUsable env (lower_case name) is_read.instances_read).0)
