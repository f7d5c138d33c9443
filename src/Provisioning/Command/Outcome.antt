-- ===== src/Provisioning/Command/Outcome.antt =====
-- When the command of service/src/cli/provision-tenant.ts leaves the env file as it was.
use vcalm_status_service.Common.{
  String, ◌≡◌, refl, sym, ap, ◌∙◌, Bool, true, false, Option, none, some, string_eq, if◌then◌else◌,
  contains,
}
use vcalm_status_service.Errors.{Error, Result, ok, err, Action, lift, ◌>>=◌}
use vcalm_status_service.VcSigner.{Cryptosuite, KeyMaterial}
use vcalm_status_service.VcSigner.Signer.{SignatureLibraries}
use vcalm_status_service.Provisioning.{
  IssuerProfile, get_profile, normalize_tenant_id, ProvisionedTenant, provision_tenant,
}
use vcalm_status_service.Provisioning.Command.{
  Options, Terminal, log, print_profiles, parse_emit_targets, input_of, provision, run,
}
use vcalm_status_service.Provisioning.Command.Effects.{
  KeepsFile, KeepsOnError, keeps_then, KeepsOnError-then, announce-KeepsOnError, announce-KeepsFile,
  lift-KeepsFile, print_profiles-KeepsFile, only_transaction,
}

checked_then :
    {A B : Type 0} (r : Result A) (f : A → Action Terminal B)
    → ((a : A) → r ≡ ok a → KeepsOnError (f a))
    → KeepsOnError (lift r >>= f)
checked_then (ok a) f h s e thrown = h a refl s e thrown
checked_then (err x) f h s e thrown = refl

module _ (libs : SignatureLibraries) (generated : Cryptosuite → Result KeyMaterial)
    (fresh_token : String) (reg_exp : String → String → Result Bool) (path usage : String)
    (options : Options) where
  abbrev made : String → IssuerProfile → Result ProvisionedTenant
  made id profile = provision_tenant libs generated fresh_token (input_of options id profile)

  provision-KeepsOnError :
      (name : Option String)
      → contains "signing-service" options.emit ≡ false
      → KeepsOnError (provision libs generated fresh_token reg_exp path usage options name)
  unfolding provision
  provision-KeepsOnError none free s e = λ h. refl
  provision-KeepsOnError (some name) free s e =
      checked_then (parse_emit_targets options.emit) _
        (λ targets parsed.
          KeepsOnError-then (lift (normalize_tenant_id name)) _
            (lift-KeepsFile (normalize_tenant_id name))
            (λ id.
              KeepsOnError-then (lift (get_profile options.profile)) _
                (lift-KeepsFile (get_profile options.profile))
                (λ profile.
                  KeepsOnError-then (lift (made id profile)) _ (lift-KeepsFile (made id profile))
                    (λ t.
                      announce-KeepsOnError reg_exp path options targets t
                        (only_transaction options.emit free parsed)))))
        s e

  provision-KeepsFile :
      (name : Option String)
      → options.print_only ≡ true
      → KeepsFile (provision libs generated fresh_token reg_exp path usage options name)
  unfolding provision
  provision-KeepsFile none only s = refl
  provision-KeepsFile (some name) only s =
      keeps_then (lift (parse_emit_targets options.emit)) _
        (lift-KeepsFile (parse_emit_targets options.emit))
        (λ targets.
          keeps_then (lift (normalize_tenant_id name)) _ (lift-KeepsFile (normalize_tenant_id name))
            (λ id.
              keeps_then (lift (get_profile options.profile)) _
                (lift-KeepsFile (get_profile options.profile))
                (λ profile.
                  keeps_then (lift (made id profile)) _ (lift-KeepsFile (made id profile))
                    (λ t. announce-KeepsFile reg_exp path options targets t only))))
        s

  -- A run of the command that ends in an error leaves the env file as it was, if the signing
  -- service is not among the services that it prints a block for.
  pub run_atomic :
      contains "signing-service" options.emit ≡ false
      → (s s' : Terminal) (e : Error)
      → run libs generated fresh_token reg_exp path usage options s ≡ (err e, s')
      → s'.file ≡ s.file
  unfolding run
  run_atomic free s s' e h =
      ap (λ (r : Result (Unit {0}) × Terminal). r.1.file) (sym h)
      ∙ by_flags options.help options.list_profiles s e
          (ap (λ (r : Result (Unit {0}) × Terminal). r.0) h)
    where
      by_flags :
          (help lists : Bool)
          → KeepsOnError (
              if help
              then log usage
              else if lists
              then print_profiles
              else provision libs generated fresh_token reg_exp path usage options options.tenant)
      by_flags true lists s e h = refl
      by_flags false true s e h = print_profiles-KeepsFile s
      by_flags false false s e h = provision-KeepsOnError options.tenant free s e h

  -- With print-only, the command leaves the env file as it was, however it ends.
  pub run_print_only :
      options.print_only ≡ true
      → (s : Terminal)
      → (run libs generated fresh_token reg_exp path usage options s).1.file ≡ s.file
  unfolding run
  run_print_only only s = by_flags options.help options.list_profiles
    where
      by_flags :
          (help lists : Bool)
          → ((if help
                then log usage
                else if lists
                then print_profiles
                else provision libs generated fresh_token reg_exp path usage options options.tenant)
              s).1.file
            ≡ s.file
      by_flags true lists = refl
      by_flags false true = print_profiles-KeepsFile s
      by_flags false false = provision-KeepsFile options.tenant only s
