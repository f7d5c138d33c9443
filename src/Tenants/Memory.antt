-- ===== src/Tenants/Memory.antt =====
-- service/src/services/tenants-memory.ts: `MemoryTenantRegistry`.
use vcalm_status_service.Common.{
  String, ◌≡◌, refl, sym, ap, ◌∙◌, ◌⊎◌, get_or, Bool, true, false, not, Option, none, some, List,
  [], ◌∷◌, arith, ◌==◌, string_eq, if◌then◌else◌, contains, any, eq_iff, eq_refl, Bool-cases, inl,
  inr,
}
use vcalm_status_service.Common.Dict
use vcalm_status_service.Common.Dict.{Dict, get-put}
use vcalm_status_service.Errors.{Result, ok, err, Action, plain_error, ◌>>◌}
use vcalm_status_service.Tenants.{TenantRecord, TenantRegistry}

pub record MemoryTenantRegistry : Type 0 where
  pub tenants : Dict TenantRecord
  pub by_token : Dict String

abbrev pub empty_registry : MemoryTenantRegistry
empty_registry = record { tenants = []; by_token = [] }

-- `owner !== undefined && owner !== tenant.tenantId`
abbrev pub is_other : String → Option String → Bool
is_other id none = false
is_other id (some owner) = not (owner == id)

abbrev pub collides : TenantRecord → MemoryTenantRegistry → Bool
collides t m = any (λ token. is_other t.tenant_id (Dict.get token m.by_token)) t.tokens

abbrev pub put_all : String → List String → Dict String → Dict String
put_all id [] d = d
put_all id (token ∷ tokens) d = put_all id tokens (Dict.put token id d)

-- `add`
unfoldable pub add : TenantRecord → Action MemoryTenantRegistry (Unit {0})
add t m = if collides t m then (err plain_error, m) else (
  ok tt,
  record {
    tenants = Dict.put (t.tenant_id) t m.tenants;
    by_token = put_all (t.tenant_id) t.tokens m.by_token;
  },
)

-- The loop of the constructor: the first collision is thrown.
unfoldable pub add_all : List TenantRecord → Action MemoryTenantRegistry (Unit {0})
add_all [] m = (ok tt, m)
add_all (t ∷ ts) m = (add t >> add_all ts) m

unfoldable pub get_tenant : MemoryTenantRegistry → String → Option TenantRecord
get_tenant m id = Dict.get id m.tenants

abbrev pub tenant_of : MemoryTenantRegistry → Option String → Option TenantRecord
tenant_of m none = none
tenant_of m (some id) = Dict.get id m.tenants

unfoldable pub get_tenant_by_token : MemoryTenantRegistry → String → Option TenantRecord
get_tenant_by_token m token = if token == "" then none else tenant_of m (Dict.get token m.by_token)

abbrev pub memory_tenants : MemoryTenantRegistry → TenantRegistry
memory_tenants m = record { get_tenant = get_tenant m; get_tenant_by_token = get_tenant_by_token m }

pub get-put_all :
    (id token : String) (tokens : List String) (d : Dict String)
    → Dict.get token (put_all id tokens d)
      ≡ (if contains token tokens then some id else Dict.get token d)
get-put_all id token [] d = refl
get-put_all id token (t ∷ ts) d =
    ground (arith, get-put_all id token ts (Dict.put t id d), get-put t token id d)

-- The tenant that a token resolved to, with the tenant of that id replaced.
abbrev pub replaced : TenantRecord → MemoryTenantRegistry → Option String → Option TenantRecord
replaced t m none = none
replaced t m (some owner) = if t.tenant_id == owner then some t else Dict.get owner m.tenants

tenant_of-put :
    (t : TenantRecord) (m : MemoryTenantRegistry) (d : Dict String) (o : Option String)
    → tenant_of (record { tenants = Dict.put (t.tenant_id) t m.tenants; by_token = d }) o
      ≡ replaced t m o
tenant_of-put t m d none = refl
tenant_of-put t m d (some owner) = get-put (t.tenant_id) owner t m.tenants

-- After adding a tenant whose tokens no other tenant holds, each of its tokens resolves to it,
-- every other token to the tenant that it named before (as that tenant is now), and the empty token
-- to none.
pub get_tenant_by_token-add :
    (t : TenantRecord) (m : MemoryTenantRegistry) (token : String)
    → collides t m ≡ false
    → get_tenant_by_token (add t m).1 token ≡ (
        if token == ""
        then none
        else if contains token t.tokens
        then some t
        else replaced t m (Dict.get token m.by_token))
unfolding add get_tenant_by_token
get_tenant_by_token-add t m token fresh =
    let d : Dict String = put_all (t.tenant_id) t.tokens m.by_token in
    rw
      (
        fresh,
        tenant_of-put t m d (Dict.get token d),
        get-put_all (t.tenant_id) token t.tokens m.by_token,
      )
      (named (token == "") (contains token t.tokens))
  where
    named :
        (b c : Bool)
        → (if b
            then none
            else replaced t m (if c then some t.tenant_id else Dict.get token m.by_token))
          ≡ (if b then none else if c then some t else replaced t m (Dict.get token m.by_token))
    named true c = refl
    named false true = rw (eq_refl (t.tenant_id))
    named false false = refl

-- A token of another tenant is a collision: nothing is added.
pub add_collision :
    (t : TenantRecord) (m : MemoryTenantRegistry)
    → collides t m ≡ true
    → add t m ≡ (err plain_error, m)
unfolding add
add_collision t m h = rw h

abbrev token_owner : MemoryTenantRegistry → String → Option String
token_owner m token = Dict.get token m.by_token

-- Every token in use names a tenant that is registered under its own id.
pub record IsValid (m : MemoryTenantRegistry) : Type 0 where
  pub known :
      (token owner : String)
      → token_owner m token ≡ some owner
      → (t : TenantRecord) × (Dict.get owner m.tenants ≡ some t)
  pub keyed : (id : String) (t : TenantRecord) → Dict.get id m.tenants ≡ some t → t.tenant_id ≡ id

module _ (t : TenantRecord) (m : MemoryTenantRegistry) (h : IsValid m) where
  put_known :
      (owner : String)
      → (t.tenant_id ≡ owner) ⊎ ((x : TenantRecord) × (Dict.get owner m.tenants ≡ some x))
      → (x : TenantRecord) × (Dict.get owner (Dict.put (t.tenant_id) t m.tenants) ≡ some x)
  put_known owner (inl same) =
      (t, get-put (t.tenant_id) owner t m.tenants ∙ rw ((eq_iff (t.tenant_id) owner).1 same))
  put_known owner (inr (x, e)) = elim (Bool-cases (t.tenant_id == owner)) [
    | inl same ↦ (t, get-put (t.tenant_id) owner t m.tenants ∙ rw same)
    | inr other ↦ (x, get-put (t.tenant_id) owner t m.tenants ∙ rw other e)
  ]

  owner_known :
      (token owner : String)
      → (if contains token t.tokens then some t.tenant_id else Dict.get token m.by_token)
        ≡ some owner
      → (t.tenant_id ≡ owner) ⊎ ((x : TenantRecord) × (Dict.get owner m.tenants ≡ some x))
  owner_known token owner e = elim (Bool-cases (contains token t.tokens)) [
    | inl c ↦ inl (ap (λ o. get_or o (t.tenant_id)) (rw c at e))
    | inr c ↦ inr (h.known token owner (rw c at e))
  ]

  put_keyed :
      (id : String) (x : TenantRecord)
      → (if t.tenant_id == id then some t else Dict.get id m.tenants) ≡ some x
      → x.tenant_id ≡ id
  put_keyed id x e = elim (Bool-cases (t.tenant_id == id)) [
    | inl same ↦
        ap (λ o. (get_or o t).tenant_id) (sym (rw same at e)) ∙ (eq_iff (t.tenant_id) id).0 same
    | inr other ↦ h.keyed id x (rw other at e)
  ]

  put-IsValid : IsValid (record {
    tenants = Dict.put (t.tenant_id) t m.tenants;
    by_token = put_all (t.tenant_id) t.tokens m.by_token;
  })
  put-IsValid = record {
    known = λ token owner e.
        put_known owner
          (owner_known token owner (sym (get-put_all (t.tenant_id) token t.tokens m.by_token) ∙ e));
    keyed = λ id x e. put_keyed id x (sym (get-put (t.tenant_id) id t m.tenants) ∙ e);
  }

  -- `add` keeps the registry valid, whether it throws or not.
  pub add-IsValid : IsValid (add t m).1
  unfolding add
  add-IsValid = elim (Bool-cases (collides t m)) [
    | inl clash ↦ rw clash h
    | inr fresh ↦ rw fresh put-IsValid
  ]

-- Adding a list of tenants to a valid registry, up to the first collision if there is one, leaves
-- it valid: every token in use names a tenant that is registered, and every tenant stands under its
-- own id.
pub add_all-IsValid :
    (ts : List TenantRecord) (m : MemoryTenantRegistry) → IsValid m → IsValid (add_all ts m).1
unfolding add_all
add_all-IsValid [] m h = h
add_all-IsValid (t ∷ ts) m h = after (add t m) (add-IsValid t m h) (add_all-IsValid ts)
  where
    after :
        (x : Result (Unit {0}) × MemoryTenantRegistry)
        → IsValid (x.1)
        → ((n : MemoryTenantRegistry) → IsValid n → IsValid (add_all ts n).1)
        → IsValid (((λ (n : MemoryTenantRegistry). x) >> add_all ts) m).1
    after (ok _, n) v rest = rest n v
    after (err e, n) v rest = v
