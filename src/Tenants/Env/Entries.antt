-- ===== src/Tenants/Env/Entries.antt =====
-- The tenants that `parseTenantsFromEnv` gives are those of the variables `TENANT_TOKEN_<name>`.
use mathlib.Core.Path.{subst}
use vcalm_status_service.Common.{
  String, ◌↔◌, ◌≡◌, refl, sym, ap, ◌∙◌, ◌⊎◌, inl, inr, Bool, true, false, Option, none, some, List,
  [], ◌∷◌, string_eq, if◌then◌else◌, Member,
}
use vcalm_status_service.Common.Text.{◌⧺◌}
use vcalm_status_service.Common.Prefix.{strip_prefix, strip_prefix-append, strip_prefix_sound}
use vcalm_status_service.Errors.{Result, ok}
use vcalm_status_service.Errors.Results.{>>=-eq-ok}
use vcalm_status_service.Tenants.{TenantRecord}
use vcalm_status_service.Tenants.Env.{
  Env, parse_tenant, parse_entry, parse_entries, insert_by_id, sort_by_id,
}

Member-insert :
    (le : String → String → Bool) (x : TenantRecord) (ts : List TenantRecord) (t : TenantRecord)
    → Member t (insert_by_id le x ts) ↔ ((x ≡ t) ⊎ Member t ts)
Member-insert le x [] t = (λ h. h, λ h. h)
Member-insert le x (y ∷ ts) t = by_test (le (x.tenant_id) (y.tenant_id)) (Member-insert le x ts t)
  where
    by_test :
        (b : Bool)
        → Member t (insert_by_id le x ts) ↔ ((x ≡ t) ⊎ Member t ts)
        → Member t (if b then x ∷ y ∷ ts else y ∷ insert_by_id le x ts)
          ↔ ((x ≡ t) ⊎ ((y ≡ t) ⊎ Member t ts))
    by_test true rest = (λ h. h, λ h. h)
    by_test false (from, to) = (
      λ h. elim h [
        | inl e ↦ inr (inl e)
        | inr m ↦ elim (from m) [ inl e ↦ inl e | inr l ↦ inr (inr l) ]
      ],
      λ h. elim h [
        | inl e ↦ inr (to (inl e))
        | inr m ↦ elim m [ inl e ↦ inl e | inr l ↦ inr (to (inr l)) ]
      ],
    )

pub Member-sort :
    (le : String → String → Bool) (ts : List TenantRecord) (t : TenantRecord)
    → Member t (sort_by_id le ts) ↔ Member t ts
Member-sort le [] t = (λ h. h, λ h. h)
Member-sort le (x ∷ ts) t =
    let (from, to) = Member-sort le ts t in
    let (from_insert, to_insert) = Member-insert le x (sort_by_id le ts) t in
    (
      λ h. elim (from_insert h) [ inl e ↦ inl e | inr m ↦ inr (from m) ],
      λ h. to_insert (elim h [ inl e ↦ inl e | inr m ↦ inr (to m) ]),
    )

first :
    (t : TenantRecord) (rest : List TenantRecord) {ts : List TenantRecord}
    → ◌≡◌ {A = Result (List TenantRecord)} (ok (t ∷ rest)) (ok ts)
    → Member t ts
first t rest {ts} h = let same : t ∷ rest ≡ ts = cc in subst (Member t) same (inl refl)

later_in :
    (t u : TenantRecord) (rest : List TenantRecord) {ts : List TenantRecord}
    → ◌≡◌ {A = Result (List TenantRecord)} (ok (u ∷ rest)) (ok ts)
    → Member t rest
    → Member t ts
later_in t u rest {ts} h m = let same : u ∷ rest ≡ ts = cc in subst (Member t) same (inr m)

-- The tenants are those of the variables that name a token.
pub parsed_of_entry :
    (env entries : Env) (name value : String) {ts : List TenantRecord}
    → parse_entries env entries ≡ ok ts
    → Member ("TENANT_TOKEN_" ⧺ name, value) entries
    → (t : TenantRecord) × Member t ts × (parse_tenant env name value ≡ ok t)
unfolding parse_entries
parsed_of_entry env [] name value h m = elim m [ ]
parsed_of_entry env ((k, v) ∷ entries) name value h (inl same) =
    let key : k ≡ "TENANT_TOKEN_" ⧺ name = ap (λ (e : String × String). e.0) same in
    let val : v ≡ value = ap (λ (e : String × String). e.1) same in
    let stripped : strip_prefix "TENANT_TOKEN_" k ≡ some name =
      ap (strip_prefix "TENANT_TOKEN_") key ∙ strip_prefix-append "TENANT_TOKEN_" name in
    let (t, read, h1) = >>=-eq-ok (parse_tenant env name v) _ (rw stripped at h) in
    let (rest, _, h2) = >>=-eq-ok (parse_entries env entries) _ h1 in
    (t, first t rest h2, subst (λ (x : String). parse_tenant env name x ≡ ok t) val read)
parsed_of_entry env ((k, v) ∷ entries) name value {ts} h (inr later) =
    by_name (strip_prefix "TENANT_TOKEN_" k)
      (λ rest e. parsed_of_entry env entries name value {ts = rest} e later) h
  where
    Found : List TenantRecord → Type 0
    Found us = (t : TenantRecord) × Member t us × (parse_tenant env name value ≡ ok t)

    by_name :
        (o : Option String)
        → ((rest : List TenantRecord) → parse_entries env entries ≡ ok rest → Found rest)
        → parse_entry env v o (parse_entries env entries) ≡ ok ts
        → Found ts
    by_name none found e = found ts e
    by_name (some x) found e =
        let (u, _, h1) = >>=-eq-ok (parse_tenant env x v) _ e in
        let (rest, read, h2) = >>=-eq-ok (parse_entries env entries) _ h1 in
        let (t, at, parsed) = found rest read in (t, later_in t u rest h2 at, parsed)

-- Every tenant is that of a variable.
pub entry_of_parsed :
    (env entries : Env) (t : TenantRecord) {ts : List TenantRecord}
    → parse_entries env entries ≡ ok ts
    → Member t ts
    → (name value : String) × Member ("TENANT_TOKEN_" ⧺ name, value) entries
      × (parse_tenant env name value ≡ ok t)
unfolding parse_entries
entry_of_parsed env [] t {ts} h m =
    let same : [] ≡ ts = cc in elim (subst (Member t) (sym same) m) [ ]
entry_of_parsed env ((k, v) ∷ entries) t {ts} h m =
    by_name (strip_prefix "TENANT_TOKEN_" k) refl
      (λ rest e at. entry_of_parsed env entries t {ts = rest} e at) h m
  where
    Found : Env → Type 0
    Found es =
        (name value : String) × Member ("TENANT_TOKEN_" ⧺ name, value) es
        × (parse_tenant env name value ≡ ok t)

    further : Found entries → Found ((k, v) ∷ entries)
    further (name, value, at, parsed) = (name, value, inr at, parsed)

    at_place :
        (x : String) (u : TenantRecord)
        → strip_prefix "TENANT_TOKEN_" k ≡ some x
        → parse_tenant env x v ≡ ok u
        → (u ≡ t) ⊎ Found entries
        → Found ((k, v) ∷ entries)
    at_place x u e read (inr found) = further found
    at_place x u e read (inl same) = (
      x,
      v,
      inl (ap (λ key. (key, v)) (strip_prefix_sound "TENANT_TOKEN_" k e)),
      read ∙ ap ok same,
    )

    all_of :
        (u : TenantRecord) (rest : List TenantRecord)
        → ◌≡◌ {A = Result (List TenantRecord)} (ok (u ∷ rest)) (ok ts)
        → u ∷ rest ≡ ts
    all_of u rest h = cc

    by_name :
        (o : Option String)
        → strip_prefix "TENANT_TOKEN_" k ≡ o
        → ((rest : List TenantRecord)
            → parse_entries env entries ≡ ok rest
            → Member t rest
            → Found entries)
        → parse_entry env v o (parse_entries env entries) ≡ ok ts
        → Member t ts
        → Found ((k, v) ∷ entries)
    by_name none e found h m = further (found ts h m)
    by_name (some x) e found h m =
        let (u, parsed, h1) = >>=-eq-ok (parse_tenant env x v) _ h in
        let (rest, read, h2) = >>=-eq-ok (parse_entries env entries) _ h1 in
        let same : ts ≡ u ∷ rest = sym (all_of u rest h2) in
        at_place x u e parsed
          (elim (subst (Member t) same m) [ inl is ↦ inl is | inr l ↦ inr (found rest read l) ])
