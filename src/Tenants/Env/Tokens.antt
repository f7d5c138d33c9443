-- ===== src/Tenants/Env/Tokens.antt =====
-- Which tokens `EnvTenantRegistry` knows: those of the variables that it was made from.
use vcalm_status_service.Common.{
  String, ◌≡◌, refl, sym, ap, ◌∙◌, ◌⊎◌, inl, inr, Bool, true, false, Option, none, some, List, [],
  ◌∷◌, arith, string_eq, if◌then◌else◌, contains, Member, any-Member, Member_of_contains, eq_iff,
  Bool-cases,
}
use vcalm_status_service.Common.Dict
use vcalm_status_service.Errors.{ok}
use vcalm_status_service.Tenants.{TenantRecord}
use vcalm_status_service.Tenants.Memory.{
  MemoryTenantRegistry, is_other, collides, add, add_all, get-put_all,
}

abbrev pub owner : MemoryTenantRegistry → String → Option String
owner m token = Dict.get token m.by_token

owner-add :
    (t : TenantRecord) (m : MemoryTenantRegistry) (token : String)
    → collides t m ≡ false
    → owner (add t m).1 token
      ≡ (if contains token t.tokens then some t.tenant_id else owner m token)
unfolding add
owner-add t m token fresh = rw fresh (get-put_all (t.tenant_id) token t.tokens m.by_token)

same_owner :
    (id : String) (o : Option String) {x : String} → o ≡ some x → is_other id o ≡ false → x ≡ id
same_owner id none e h = cc
same_owner id (some y) {x} e h =
    let same : y ≡ x = cc in rw (sym same) (ground (arith, eq_iff y id))

-- A token that has an owner keeps it when a tenant is added.
owner_kept :
    (t : TenantRecord) (m : MemoryTenantRegistry) (token : String) {x : String}
    → collides t m ≡ false
    → owner m token ≡ some x
    → owner (add t m).1 token ≡ some x
owner_kept t m token {x} fresh e = owner-add t m token fresh ∙ kept (contains token t.tokens) refl
  where
    kept :
        (b : Bool)
        → contains token t.tokens ≡ b
        → (if b then some t.tenant_id else owner m token) ≡ some x
    kept false h = e
    kept true h = ap some (
        sym (
          same_owner (t.tenant_id) (owner m token) e (
            any-Member (λ k. is_other (t.tenant_id) (owner m k)) (t.tokens) fresh
              (Member_of_contains token (t.tokens) h))))

add_all_first :
    (t : TenantRecord) (ts : List TenantRecord) (m : MemoryTenantRegistry)
    {m' : MemoryTenantRegistry}
    → add_all (t ∷ ts) m ≡ (ok tt, m')
    → (collides t m ≡ false) × (add_all ts (add t m).1 ≡ (ok tt, m'))
unfolding add_all add
add_all_first t ts m h = elim (Bool-cases (collides t m)) [
  | inl clash ↦ cc (rw clash at h)
  | inr fresh ↦ (fresh, rw fresh (rw fresh at h))
]

owner_kept_all :
    (ts : List TenantRecord) (m : MemoryTenantRegistry) (token : String) {m' : MemoryTenantRegistry}
    {x : String}
    → add_all ts m ≡ (ok tt, m')
    → owner m token ≡ some x
    → owner m' token ≡ some x
unfolding add_all
owner_kept_all [] m token h e = cc
owner_kept_all (t ∷ ts) m token h e =
    let (fresh, rest) = add_all_first t ts m h in
    owner_kept_all ts (add t m).1 token rest (owner_kept t m token fresh e)

-- After the tenants are added, each of their tokens is theirs.
pub owner_of_tenant :
    (ts : List TenantRecord) (m : MemoryTenantRegistry) (token : String) (t : TenantRecord)
    {m' : MemoryTenantRegistry}
    → add_all ts m ≡ (ok tt, m')
    → Member t ts
    → contains token t.tokens ≡ true
    → owner m' token ≡ some t.tenant_id
owner_of_tenant [] m token t h at c = elim at [ ]
owner_of_tenant (x ∷ ts) m token t h (inl same) c =
    let (fresh, rest) = add_all_first x ts m h in
    owner_kept_all ts (add x m).1 token rest (owner-add x m token fresh ∙ rw same (rw c refl))
owner_of_tenant (x ∷ ts) m token t h (inr later) c =
    owner_of_tenant ts (add x m).1 token t (add_all_first x ts m h).1 later c

-- A token is no one's but that of a tenant who has it.
pub owner_from :
    (ts : List TenantRecord) (m : MemoryTenantRegistry) (token id : String)
    {m' : MemoryTenantRegistry}
    → add_all ts m ≡ (ok tt, m')
    → owner m' token ≡ some id
    → (owner m token ≡ some id)
      ⊎ ((t : TenantRecord) × Member t ts × (contains token t.tokens ≡ true) × (t.tenant_id ≡ id))
unfolding add_all
owner_from [] m token id h e = inl (cc)
owner_from (x ∷ ts) m token id h e =
    let (fresh, rest) = add_all_first x ts m h in
    elim (owner_from ts (add x m).1 token id rest e) [
      | inr (t, later, has, same) ↦ inr (t, inr later, has, same)
      | inl before ↦ elim (Bool-cases (contains token x.tokens)) [
        | inl c ↦
            let named : some x.tenant_id ≡ some id =
              rw c at (sym (owner-add x m token fresh) ∙ before) in
            inr (x, inl refl, c, cc)
        | inr c ↦ inl (rw c at (sym (owner-add x m token fresh) ∙ before))
      ]
    ]
