-- ===== src/Provisioning/Command/Effects.antt =====
-- What the command of service/src/cli/provision-tenant.ts leaves in the env file.
use mathlib.Core.Path.{subst}
use vcalm_status_service.Common.{
  String, All, ◌≡◌, refl, ◌∙◌, Bool, true, false, not, ◌&&◌, Option, none, some, List, [], ◌∷◌,
  arith, ◌==◌, string_eq, contains, Bool-cases, inl, inr,
}
use vcalm_status_service.Errors.{Error, Result, ok, err, Action, lift, ◌>>=◌, Result-cases}
use vcalm_status_service.Errors.Results.{>>=-eq-ok}
use vcalm_status_service.Provisioning.{
  IssuerProfile, ProvisionedTenant, render_env_block, CrossServiceTarget, signing_service,
  transaction_service, render_cross_service_block,
}
use vcalm_status_service.Provisioning.Files.{
  EnvFile, read_file, held_in, append_to, append_env_block,
}
use vcalm_status_service.Provisioning.Command.{
  Options, Terminal, log, on_file, log_profiles, print_profiles, target_of, parse_emit_targets,
  write_block, log_domains, log_blocks, announce,
}

-- It leaves the file as it was.
abbrev pub KeepsFile : {A : Type 0} → Action Terminal A → Type 0
KeepsFile m = (s : Terminal) → (m s).1.file ≡ s.file

-- It leaves the file as it was if it throws.
abbrev pub KeepsOnError : {A : Type 0} → Action Terminal A → Type 0
KeepsOnError {A} m = (s : Terminal) (e : Error) → (m s).0 ≡ err e → (m s).1.file ≡ s.file

abbrev NeverThrows : {A : Type 0} → Action Terminal A → Type 0
NeverThrows {A} m = (s : Terminal) → (a : A) × ((m s).0 ≡ ok a)

module _ {A B : Type 0} (m : Action Terminal A) (f : A → Action Terminal B) where
  pub keeps_then : KeepsFile m → ((a : A) → KeepsFile (f a)) → KeepsFile (m >>= f)
  keeps_then h k s = by_result (m s) (h s)
    where
      by_result :
          (x : Result A × Terminal)
          → x.1.file ≡ s.file
          → (((λ (t : Terminal). x) >>= f) s).1.file ≡ s.file
      by_result (ok a, t) e = k a t ∙ e
      by_result (err x, t) e = e

  pub KeepsOnError-then : KeepsFile m → ((a : A) → KeepsOnError (f a)) → KeepsOnError (m >>= f)
  KeepsOnError-then h k s e = by_result (m s) (h s)
    where
      by_result :
          (x : Result A × Terminal)
          → x.1.file ≡ s.file
          → (((λ (t : Terminal). x) >>= f) s).0 ≡ err e
          → (((λ (t : Terminal). x) >>= f) s).1.file ≡ s.file
      by_result (ok a, t) same thrown = k a t e thrown ∙ same
      by_result (err x, t) same thrown = same

  safe_then : KeepsOnError m → ((a : A) → NeverThrows (f a)) → KeepsOnError (m >>= f)
  safe_then h k s e = by_result (m s) (h s)
    where
      by_result :
          (x : Result A × Terminal)
          → ((d : Error) → x.0 ≡ err d → x.1.file ≡ s.file)
          → (((λ (t : Terminal). x) >>= f) s).0 ≡ err e
          → (((λ (t : Terminal). x) >>= f) s).1.file ≡ s.file
      by_result (ok a, t) keeps thrown = let (b, fine) = k a t in cc
      by_result (err x, t) keeps thrown = keeps x refl

  never_then : NeverThrows m → ((a : A) → NeverThrows (f a)) → NeverThrows (m >>= f)
  never_then h k s = by_result (m s) (h s)
    where
      by_result :
          (x : Result A × Terminal)
          → (a : A) × (x.0 ≡ ok a)
          → (b : B) × ((((λ (t : Terminal). x) >>= f) s).0 ≡ ok b)
      by_result (ok a, t) _ = k a t
      by_result (err x, t) (a, e) = cc

log-KeepsFile : (text : String) → KeepsFile (log text)
log-KeepsFile text s = refl

log-NeverThrows : (text : String) → NeverThrows (log text)
log-NeverThrows text s = (tt, refl)

pub lift-KeepsFile : {A : Type 0} (r : Result A) → KeepsFile (lift r)
lift-KeepsFile r s = refl

log_profiles-KeepsFile : (ps : List IssuerProfile) → KeepsFile (log_profiles ps)
log_profiles-KeepsFile [] s = refl
log_profiles-KeepsFile (p ∷ ps) s = log_profiles-KeepsFile ps _

pub keeps-error : {A : Type 0} (m : Action Terminal A) → KeepsFile m → KeepsOnError m
keeps-error m h s e thrown = h s

pub print_profiles-KeepsFile : KeepsFile print_profiles
unfolding print_profiles
print_profiles-KeepsFile s = refl

-- Without the signing service among them, the targets are the transaction service.
pub only_transaction :
    (values : List String) {targets : List CrossServiceTarget}
    → contains "signing-service" values ≡ false
    → parse_emit_targets values ≡ ok targets
    → All (λ target. target ≡ transaction_service) targets
unfolding parse_emit_targets
only_transaction [] {targets} free h = of_nil targets h
  where
    of_nil :
        (ts : List CrossServiceTarget)
        → ◌≡◌ {A = Result (List CrossServiceTarget)} (ok []) (ok ts)
        → All (λ target. target ≡ transaction_service) ts
    of_nil ts h =
        let same : [] ≡ ts = cc in subst (All (λ target. target ≡ transaction_service)) same tt
only_transaction (value ∷ values) {targets} free h =
    let (target, named, h1) = >>=-eq-ok (target_of value) _ h in
    let (rest, parsed, h2) = >>=-eq-ok (parse_emit_targets values) _ h1 in
    let same : target ∷ rest ≡ targets = cc h2 in
    subst (All (λ t. t ≡ transaction_service)) same
      (not_signing target named, only_transaction values (later free) parsed)
  where
    later :
        contains "signing-service" (value ∷ values) ≡ false
        → contains "signing-service" values ≡ false
    later e = ground arith

    not_signing :
        (target : CrossServiceTarget) → target_of value ≡ ok target → target ≡ transaction_service
    not_signing transaction_service e = refl
    not_signing signing_service e = elim (Bool-cases (value == "signing-service")) [
      | inl same ↦ cc (rw same at free)
      | inr other ↦ elim (Bool-cases (value == "transaction-service")) [
        | inl is ↦ cc (rw (other, is) at e)
        | inr neither ↦ cc (rw (other, neither) at e)
      ]
    ]

log_domains-NeverThrows : (ds : List String) → NeverThrows (log_domains ds)
log_domains-NeverThrows [] s = (tt, refl)
log_domains-NeverThrows (d ∷ ds) s = (tt, refl)

log_domains-KeepsFile : (ds : List String) → KeepsFile (log_domains ds)
log_domains-KeepsFile [] s = refl
log_domains-KeepsFile (d ∷ ds) s = refl

log_blocks-KeepsFile :
    (t : ProvisionedTenant) (targets : List CrossServiceTarget) → KeepsFile (log_blocks t targets)
log_blocks-KeepsFile t [] s = refl
log_blocks-KeepsFile t (target ∷ targets) s =
    keeps_then (lift (render_cross_service_block t target)) _
      (lift-KeepsFile (render_cross_service_block t target))
      (λ block u. log_blocks-KeepsFile t targets _) s

log_blocks-NeverThrows :
    (t : ProvisionedTenant) (targets : List CrossServiceTarget)
    → All (λ target. target ≡ transaction_service) targets
    → NeverThrows (log_blocks t targets)
unfolding render_cross_service_block
log_blocks-NeverThrows t [] only s = (tt, refl)
log_blocks-NeverThrows t (transaction_service ∷ targets) only s =
    log_blocks-NeverThrows t targets only.1 _
log_blocks-NeverThrows t (signing_service ∷ targets) only s = cc (only.0)

append_to-keeps :
    (reg_exp : String → String → Result Bool) (block id : String) (force : Bool)
    (found : Option String) (f : EnvFile) (e : Error)
    → (append_to reg_exp block id force found f).0 ≡ err e
    → (append_to reg_exp block id force found f).1 ≡ f
append_to-keeps reg_exp block id force none f e h = elim (Bool-cases f.writable) [
  | inl may ↦ cc (rw may at h)
  | inr not_allowed ↦ rw not_allowed refl
]
append_to-keeps reg_exp block id force (some contents) f e h =
    elim (Result-cases (held_in reg_exp block id force contents)) [
      | inr (x, thrown) ↦ rw thrown refl
      | inl (held, tested) ↦ elim (Bool-cases (held && not force)) [
        | inl stop ↦ rw (tested, stop) refl
        | inr go ↦ elim (Bool-cases f.writable) [
          | inl may ↦ cc (rw (tested, go, may) at h)
          | inr not_allowed ↦ rw (tested, go, not_allowed) refl
        ]
      ]
    ]

append_env_block-keeps :
    (reg_exp : String → String → Result Bool) (block id : String) (force : Bool) (f : EnvFile)
    (e : Error)
    → (append_env_block reg_exp block id force f).0 ≡ err e
    → (append_env_block reg_exp block id force f).1 ≡ f
unfolding append_env_block
append_env_block-keeps reg_exp block id force f e h =
    append_to-keeps reg_exp block id force (read_file f) f e h

module _ (reg_exp : String → String → Result Bool) (path : String) where
  write_block-KeepsOnError :
      (options : Options) (t : ProvisionedTenant)
      → KeepsOnError (write_block reg_exp path options t)
  unfolding write_block
  write_block-KeepsOnError options t s e h = elim (Bool-cases options.print_only) [
    | inl only ↦ rw only refl
    | inr writes ↦ rw writes (
        safe_then
          (on_file (append_env_block reg_exp (render_env_block t) t.tenant_id options.force)) _
          (λ u.
            append_env_block-keeps reg_exp (render_env_block t) t.tenant_id options.force u.file)
          (λ written u. (_, refl)) s e (rw writes at h))
  ]

  write_block-KeepsFile :
      (options : Options) (t : ProvisionedTenant)
      → options.print_only ≡ true
      → KeepsFile (write_block reg_exp path options t)
  unfolding write_block
  write_block-KeepsFile options t only s = rw only refl

  pub announce-KeepsOnError :
      (options : Options) (targets : List CrossServiceTarget) (t : ProvisionedTenant)
      → All (λ target. target ≡ transaction_service) targets
      → KeepsOnError (announce reg_exp path options targets t)
  unfolding announce
  announce-KeepsOnError options targets t only =
      safe_then (write_block reg_exp path options t) _ (write_block-KeepsOnError options t)
        (λ base_url s.
          never_then (log_domains t.authorized_domains) _
            (log_domains-NeverThrows t.authorized_domains)
            (λ _.
              never_then (log_blocks t targets) _ (log_blocks-NeverThrows t targets only)
                (λ _ u. (tt, refl)))
            _)

  pub announce-KeepsFile :
      (options : Options) (targets : List CrossServiceTarget) (t : ProvisionedTenant)
      → options.print_only ≡ true
      → KeepsFile (announce reg_exp path options targets t)
  unfolding announce
  announce-KeepsFile options targets t only =
      keeps_then (write_block reg_exp path options t) _ (write_block-KeepsFile options t only)
        (λ base_url s.
          keeps_then (log_domains t.authorized_domains) _
            (log_domains-KeepsFile t.authorized_domains)
            (λ _.
              keeps_then (log_blocks t targets) _ (log_blocks-KeepsFile t targets) (λ _ u. refl))
            _)
