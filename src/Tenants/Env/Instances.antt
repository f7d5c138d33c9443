-- ===== src/Tenants/Env/Instances.antt =====
-- What the instances and the default of a tenant that is read from the environment are like.
use mathlib.Core.Path.{subst}
use vcalm_status_service.Common.{
  ℕ, zero, suc, String, ◌≡◌, ◌≢◌, refl, ap, ◌∙◌, Bool, true, false, not, ◌&&◌, ◌||◌, Option, none,
  some, List, [], ◌∷◌, ◌++◌, arith, ◌==◌, string_eq, nat_eq, get_or, is_some, any, length, eq_iff,
  All,
}
use vcalm_status_service.Common.Ascii.{upper_case, trim}
use vcalm_status_service.Errors.{Result, ok, err, plain_error}
use vcalm_status_service.Errors.Results.{>>=-eq-ok, check-eq-ok, refuse_if-eq-ok}
use vcalm_status_service.VcSigner.{DidMethod}
use vcalm_status_service.Tenants.{IssuerInstance}
use vcalm_status_service.Tenants.Env.{
  Env, at, unless_blank, needs_url, push, round, parse_did_method, parse_key_material,
  parse_cryptosuite, parse_instance, instances_from, parse_issuer_instances,
}

-- An instance that a list can be bound to: it has a name, a tenant at the signing service, and a
-- URL if its DID method needs one.
pub record IsUsable (i : IssuerInstance) : Type 0 where
  pub named : i.id ≢ ""
  pub located : needs_url i.did_method ≡ true → is_some i.did_url ≡ true
  pub signs_as : is_some i.signing_service_tenant ≡ true

-- No two instances have the same id.
abbrev pub Distinct : List IssuerInstance → Type 0
Distinct [] = Unit
Distinct (i ∷ is) = (any (λ j. j.id == i.id) is ≡ false) × Distinct is

any-append :
    (p : IssuerInstance → Bool) (is : List IssuerInstance) (i : IssuerInstance)
    → any p (is ++ i ∷ []) ≡ (any p is || p i)
any-append p [] i = ground arith
any-append p (x ∷ is) i = ground (arith, any-append p is i)

Distinct-append :
    (is : List IssuerInstance) (i : IssuerInstance)
    → Distinct is
    → any (λ j. j.id == i.id) is ≡ false
    → Distinct (is ++ i ∷ [])
Distinct-append [] i d h = (refl, tt)
Distinct-append (x ∷ is) i d h = (
  any-append (λ j. j.id == x.id) is i ∙ ground (arith, eq_iff (x.id) (i.id), eq_iff (i.id) (x.id)),
  Distinct-append is i d.1 (ground arith),
)

All-append :
    (is : List IssuerInstance) (i : IssuerInstance)
    → All IsUsable is
    → IsUsable i
    → All IsUsable (is ++ i ∷ [])
All-append [] i a u = (u, tt)
All-append (x ∷ is) i a u = (a.0, All-append is i a.1 u)

id_nonempty : (value : Option String) {id : String} → unless_blank value ≡ some id → id ≢ ""
id_nonempty none h e = cc
id_nonempty (some value) {id} h e = ground (arith, eq_iff (trim value) "")

ok_same :
    (P : IssuerInstance → Type 0) (a i : IssuerInstance)
    → ◌≡◌ {A = Result IssuerInstance} (ok a) (ok i)
    → P a
    → P i
ok_same P a i h = subst P (cc)

-- An instance that is read is usable, and its id is new.
parse_instance-IsUsable :
    (env : Env) (tenant_id : String) (n : ℕ) (is : List IssuerInstance) (id : String)
    (i : IssuerInstance)
    → id ≢ ""
    → parse_instance env tenant_id n is id ≡ ok i
    → IsUsable i × (any (λ j. j.id == i.id) is ≡ false)
unfolding parse_instance
parse_instance-IsUsable env tenant_id n is id i named h =
    let (did_method, _, h1) =
      >>=-eq-ok (parse_did_method (at env n (upper_case tenant_id) "DID_METHOD")) _ h in
    let (url, h2) = check-eq-ok _ _ h1 in
    let (key_material, _, h3) = >>=-eq-ok (parse_key_material _ _ _) _ h2 in
    let (new, h4) = check-eq-ok _ _ h3 in
    let (cryptosuite, _, h5) = >>=-eq-ok (parse_cryptosuite _) _ h4 in
    ok_same (λ x. IsUsable x × (any (λ j. j.id == x.id) is ≡ false)) _ i h5
      (
        record {
          named = named;
          located = λ needs. located did_method _ needs (refuse_if-eq-ok _ _ url);
          signs_as = refl;
        },
        refuse_if-eq-ok _ _ new,
      )
  where
    located :
        (m : DidMethod) (o : Option String)
        → needs_url m ≡ true
        → (needs_url m && not (is_some o)) ≡ false
        → is_some o ≡ true
    located m none needs h = ground arith
    located m (some o) needs h = refl

module _ (env : Env) (tenant_id : String) where
  abbrev Sound : List IssuerInstance → Type 0
  Sound is = All IsUsable is × Distinct is

  instances_from-Sound :
      (rounds n : ℕ) (is : List IssuerInstance) {found : List IssuerInstance}
      → Sound is
      → instances_from rounds env tenant_id n is ≡ some (ok found)
      → Sound found
  unfolding instances_from
  instances_from-Sound zero n is sound h = cc
  instances_from-Sound (suc rounds) n is {found} sound h =
      by_id (at env n (upper_case tenant_id) "ID") refl
        (λ more. instances_from-Sound rounds (suc n) more) h
    where
      by_made :
          (id : String) (made : Result IssuerInstance)
          → id ≢ ""
          → parse_instance env tenant_id n is id ≡ made
          → ((more : List IssuerInstance)
              → Sound more
              → instances_from rounds env tenant_id (suc n) more ≡ some (ok found)
              → Sound found)
          → push (instances_from rounds env tenant_id (suc n)) is made ≡ some (ok found)
          → Sound found
      by_made id (ok i) named e rest h =
          let (usable, new) = parse_instance-IsUsable env tenant_id n is id i named e in
          rest (is ++ i ∷ []) (All-append is i sound.0 usable, Distinct-append is i sound.1 new) h
      by_made id (err x) named e rest h = cc

      ok_same_list :
          (is found : List IssuerInstance)
          → ◌≡◌ {A = Option (Result (List IssuerInstance))} (some (ok is)) (some (ok found))
          → Sound is
          → Sound found
      ok_same_list is found h = subst Sound (cc)

      by_id :
          (id : Option String)
          → at env n (upper_case tenant_id) "ID" ≡ id
          → ((more : List IssuerInstance)
              → Sound more
              → instances_from rounds env tenant_id (suc n) more ≡ some (ok found)
              → Sound found)
          → round env tenant_id n (instances_from rounds env tenant_id (suc n)) is id
            ≡ some (ok found)
          → Sound found
      by_id none e rest h = ok_same_list is found h sound
      by_id (some id) e rest h =
          by_made id (parse_instance env tenant_id n is id) (id_nonempty _ e) refl rest h

  -- The issuer instances that are read have ids that are not empty and differ from each other, a
  -- tenant at the signing service, and a URL if their DID method needs one.
  pub parse_issuer_instances-IsUsable :
      {found : List IssuerInstance}
      → parse_issuer_instances env tenant_id ≡ ok found
      → All IsUsable found × Distinct found
  unfolding parse_issuer_instances
  parse_issuer_instances-IsUsable {found} h =
      by_outcome (instances_from (suc (length env)) env tenant_id 1 []) refl h
    where
      by_outcome :
          (o : Option (Result (List IssuerInstance)))
          → instances_from (suc (length env)) env tenant_id 1 [] ≡ o
          → get_or o (err plain_error) ≡ ok found
          → Sound found
      by_outcome none e h = cc
      by_outcome (some r) e h =
          instances_from-Sound (suc (length env)) 1 [] (tt, tt) (e ∙ ap some h)
