-- ===== src/Tenants/Env/Gaps.antt =====
-- The loop of `parseIssuerInstances` reaches a gap: there are only so many variables, and each
-- instance is named by one of its own.
use text.Mathlib.TextLemmas.{append_cancel_left, append_cancel_right}
use vcalm_status_service.Common.{
  ℕ, zero, suc, ◌≤◌, ◌<◌, String, ◌≡◌, ◌≢◌, refl, ap, ◌∙◌, true, Option, none, some, List, [], ◌∷◌,
  ◌++◌, arith, ◌==◌, string_eq, if◌then◌else◌, is_some, length, eq_iff, Option-cases, inl, inr,
}
use vcalm_status_service.Common.Dict
use vcalm_status_service.Common.Dict.{Dict}
use vcalm_status_service.Common.Text.{◌⧺◌, decimal}
use vcalm_status_service.Common.Decimal.{decimal_injective}
use vcalm_status_service.Common.Ascii.{upper_case}
use vcalm_status_service.Errors.{Result, ok, err}
use vcalm_status_service.Tenants.{IssuerInstance}
use vcalm_status_service.Tenants.Env.{
  Env, issuer_key, at, unless_blank, push, round, parse_instance, instances_from,
  parse_issuer_instances,
}

abbrev without : String → Env → Env
without k [] = []
without k ((j, v) ∷ m) = let rest = without k m in if j == k then rest else (j, v) ∷ rest

get-without : (j k : String) (m : Env) → j ≢ k → Dict.get j (without k m) ≡ Dict.get j m
get-without j k [] h = refl
get-without j k ((i, v) ∷ m) h = ground (arith, eq_iff i k, eq_iff i j, get-without j k m h)

length-without-le : (k : String) (m : Env) → length (without k m) ≤ length m
length-without-le k [] = omega arith
length-without-le k ((i, v) ∷ m) = ground (arith, length-without-le k m)

length-without-lt :
    (k : String) (m : Env) → is_some (Dict.get k m) ≡ true → length (without k m) < length m
length-without-lt k [] h = cc
length-without-lt k ((i, v) ∷ m) h = ground (arith, length-without-le k m, length-without-lt k m)

-- The variables that `key` names from n on, for some rounds, are all set.
abbrev AllSet : (ℕ → String) → Env → ℕ → ℕ → Type 0
AllSet key m n zero = Unit
AllSet key m n (suc f) = (is_some (Dict.get (key n) m) ≡ true) × AllSet key m (suc n) f

module _ (key : ℕ → String) (injective : (m n : ℕ) → key m ≡ key n → m ≡ n) where
  AllSet-without :
      (f j n : ℕ) (m : Env) → j < n → AllSet key m n f → AllSet key (without (key j) m) n f
  AllSet-without zero j n m h set = tt
  AllSet-without (suc f) j n m h set = (
    ap is_some (get-without (key n) (key j) m (λ e. absurd (omega (arith, injective n j e))))
        ∙ set.0,
    AllSet-without f j (suc n) m (omega arith) set.1,
  )

  -- No more of them are set than there are variables.
  AllSet-length : (f n : ℕ) (m : Env) → AllSet key m n f → f ≤ length m
  AllSet-length zero n m set = omega arith
  AllSet-length (suc f) n m set = omega (
    arith,
    length-without-lt (key n) m set.0,
    AllSet-length f (suc n) (without (key n) m) (AllSet-without f n (suc n) m (omega arith) set.1),
  )

id_key : String → ℕ → String
id_key suffix n = issuer_key n "ID" suffix

id_key_injective : (suffix : String) (m n : ℕ) → id_key suffix m ≡ id_key suffix n → m ≡ n
unfolding id_key
id_key_injective suffix m n e = decimal_injective m n (
    append_cancel_right (decimal m) (decimal n) ("_" ⧺ "ID" ⧺ "_" ⧺ suffix)
      (append_cancel_left "TENANT_ISSUER_" _ _ e))

set_of_at :
    (value : Option String) {id : String} → unless_blank value ≡ some id → is_some value ≡ true
set_of_at none h = cc
set_of_at (some value) h = refl

module _ (env : Env) (tenant_id : String) where
  abbrev Set : ℕ → ℕ → Type 0
  Set = AllSet (id_key (upper_case tenant_id)) env

  -- A loop that has not ended found every instance that it looked for.
  ends :
      (f n : ℕ) (instances : List IssuerInstance)
      → (Set n f → ⊥)
      → (r : Result (List IssuerInstance)) × (instances_from f env tenant_id n instances ≡ some r)
  unfolding instances_from id_key
  ends zero n instances gap = absurd (gap tt)
  ends (suc f) n instances gap = elim (Option-cases (at env n (upper_case tenant_id) "ID")) [
    | inl free ↦ (ok instances, rw free)
    | inr (id, found) ↦ rw found (
        after (parse_instance env tenant_id n instances id)
          (λ more. ends f (suc n) more (λ set. gap (set_of_at _ found, set))))
  ]
    where
      after :
          (made : Result IssuerInstance)
          → ((more : List IssuerInstance)
              → (r : Result (List IssuerInstance)) × (instances_from f env tenant_id (suc n) more
                  ≡ some r))
          → (r : Result (List IssuerInstance)) × (push
                (instances_from f env tenant_id (suc n))
                instances
                made
              ≡ some r)
      after (ok i) rest = rest (instances ++ i ∷ [])
      after (err e) rest = (err e, refl)

  -- More rounds than a loop needed do not change what it gives.
  more_rounds :
      (f g n : ℕ) (instances : List IssuerInstance) {r : Result (List IssuerInstance)}
      → f ≤ g
      → instances_from f env tenant_id n instances ≡ some r
      → instances_from g env tenant_id n instances ≡ some r
  unfolding instances_from
  more_rounds zero g n instances le e = cc
  more_rounds (suc f) zero n instances le e = absurd (omega arith)
  more_rounds (suc f) (suc g) n instances {r} le e =
      by_id (at env n (upper_case tenant_id) "ID")
        (λ more h. more_rounds f g (suc n) more (omega arith) h) e
    where
      by_made :
          (made : Result IssuerInstance)
          → ((more : List IssuerInstance)
              → instances_from f env tenant_id (suc n) more ≡ some r
              → instances_from g env tenant_id (suc n) more ≡ some r)
          → push (instances_from f env tenant_id (suc n)) instances made ≡ some r
          → push (instances_from g env tenant_id (suc n)) instances made ≡ some r
      by_made (ok i) rest h = rest (instances ++ i ∷ []) h
      by_made (err x) rest h = h

      by_id :
          (id : Option String)
          → ((more : List IssuerInstance)
              → instances_from f env tenant_id (suc n) more ≡ some r
              → instances_from g env tenant_id (suc n) more ≡ some r)
          → round env tenant_id n (instances_from f env tenant_id (suc n)) instances id ≡ some r
          → round env tenant_id n (instances_from g env tenant_id (suc n)) instances id ≡ some r
      by_id none rest h = h
      by_id (some id) rest h = by_made (parse_instance env tenant_id n instances id) rest h

  -- The loop over the issuer instances of a tenant ends: given more rounds than there are variables
  -- it reaches a gap or an error, and any such number of rounds gives the same result, which is
  -- that of `parse_issuer_instances`.
  pub instances_from-ends :
      (rounds : ℕ)
      → length env < rounds
      → instances_from rounds env tenant_id 1 [] ≡ some (parse_issuer_instances env tenant_id)
  unfolding parse_issuer_instances
  instances_from-ends rounds h =
      let (r, e) = ends (suc (length env)) 1 [] (λ set. absurd (
        omega (
          arith,
          AllSet-length (id_key (upper_case tenant_id)) (id_key_injective (upper_case tenant_id))
              (suc (length env)) 1 env set,
        ))) in
      more_rounds (suc (length env)) rounds 1 [] (omega arith) e ∙ rw e
