-- ===== src/Provisioning/Reads.antt =====
-- What `parseIssuerInstances` reads in the block that `renderEnvBlock` writes.
use vcalm_status_service.Common.{
  ℕ, suc, String, ◌≡◌, refl, sym, ap, ◌∙◌, Option, none, some, List, [], ◌∷◌, arith, string_eq, All,
  length,
}
use vcalm_status_service.Common.Dict
use vcalm_status_service.Common.Ascii.{upper_case, trim}
use vcalm_status_service.Errors.{ok}
use vcalm_status_service.VcSigner.{
  Cryptosuite, DidMethod, KeyMaterial, ed25519_seed, multikey, cryptosuite_name,
}
use vcalm_status_service.Tenants.{IssuerInstance}
use vcalm_status_service.Tenants.Env.{
  Env, at, unless_blank, parse_did_method, parse_key_material, parse_instance, instances_from,
  parse_issuer_instances,
}
use vcalm_status_service.Tenants.Env.Gaps.{instances_from-ends}
use vcalm_status_service.Provisioning.Entries.{suffixed, issuer_prefix, at-suffixed, ArePlain}
use vcalm_status_service.Provisioning.Words.{
  IsWord, IsItem, unless_blank-word, truthy-word, cryptosuite-IsWord, parse_cryptosuite-name,
  join-plain,
}
use vcalm_status_service.Provisioning.Block.{
  material_entries, instance_entries, domain_entries, block_entries, seed_of, public_of, secret_of,
  Lookups,
}

abbrev pub MaterialWords : KeyMaterial → Type 0
MaterialWords (ed25519_seed seed) = IsWord seed
MaterialWords (multikey public secret) = IsWord public × IsWord secret

parse_key_material-words :
    (m : KeyMaterial)
    → MaterialWords m
    → parse_key_material
        (unless_blank (seed_of m))
        (unless_blank (public_of m))
        (unless_blank (secret_of m))
      ≡ ok (some m)
unfolding parse_key_material
parse_key_material-words (ed25519_seed seed) w =
    rw (unless_blank-word seed w, truthy-word seed w) refl
parse_key_material-words (multikey public secret) w =
    rw (unless_blank-word public w.0, unless_blank-word secret w.1)
      (rw (truthy-word public w.0, truthy-word secret w.1) refl)

-- The block's values are plain.
pub block-ArePlain :
    (token id : String) (suite : Cryptosuite) (ds : List String) (m : KeyMaterial)
    → IsWord token
    → IsWord id
    → All IsItem ds
    → MaterialWords m
    → ArePlain (block_entries token ds id suite DidMethod.key m)
block-ArePlain token id suite ds m t i items w = (t.0, domains ds items)
  where
    material : (n : KeyMaterial) → MaterialWords n → ArePlain (material_entries n)
    material (ed25519_seed seed) v = (v.0, tt)
    material (multikey public secret) v = ((v.0).0, ((v.1).0, tt))

    rest : ArePlain (instance_entries id suite DidMethod.key m)
    rest = (i.0, (i.0, ((cryptosuite-IsWord suite).0, (refl, material m w))))

    domains :
        (es : List String)
        → All IsItem es
        → ArePlain (domain_entries es (instance_entries id suite DidMethod.key m))
    domains [] v = rest
    domains (e ∷ es) v = (join-plain e es v, rest)

-- The instance of a block.
abbrev pub block_instance : String → String → Cryptosuite → KeyMaterial → IssuerInstance
block_instance tenant_id id suite m = record {
  id = id;
  cryptosuite = suite;
  did_method = DidMethod.key;
  did_url = none;
  key_material = some m;
  signing_service_tenant = some tenant_id;
  signing_service_token = none;
  issuer_did = none;
}

module _ (tenant_id id : String) (suite : Cryptosuite) (ds : List String) (m : KeyMaterial)
    (ps : Env) (found : Lookups id suite ds m ps) (named : IsWord id)
    (words : MaterialWords m) where
  at_is :
      (n : ℕ) (field : String) (o : Option String)
      → Dict.get (issuer_prefix n field) ps ≡ o
      → at (suffixed (upper_case tenant_id) ps) n (upper_case tenant_id) field ≡ unless_blank o
  at_is n field o e = at-suffixed n field (upper_case tenant_id) ps ∙ ap unless_blank e

  parse_instance-block :
      parse_instance (suffixed (upper_case tenant_id) ps) tenant_id 1 [] id
      ≡ ok (block_instance tenant_id id suite m)
  unfolding parse_instance parse_did_method trim
  parse_instance-block =
      rw
        (
          at_is 1 "DID_METHOD" _ found.method_at,
          at_is 1 "DID_URL" _ found.url_at,
          at_is 1 "SEED" _ found.seed_at,
          at_is 1 "PUBLIC_KEY" _ found.public_at,
          at_is 1 "SECRET_KEY" _ found.secret_at,
          at_is 1 "CRYPTOSUITE" _ found.suite_at,
          at_is 1 "SIGNING_TENANT" _ found.tenant_at,
          at_is 1 "SIGNING_TOKEN" _ found.bearer_at,
          at_is 1 "ISSUER_DID" _ found.did_at,
        )
        (rw
          (
            parse_key_material-words m words,
            unless_blank-word (cryptosuite_name suite) (cryptosuite-IsWord suite),
          )
          (rw (parse_cryptosuite-name suite) refl))

  -- The instance is read back, and no other one.
  pub parse_issuer_instances-block :
      parse_issuer_instances (suffixed (upper_case tenant_id) ps) tenant_id
      ≡ ok (block_instance tenant_id id suite m ∷ [])
  unfolding instances_from
  parse_issuer_instances-block =
      let env = suffixed (upper_case tenant_id) ps in
      let run = instances_from-ends env tenant_id (suc (suc (length env))) (omega arith) in
      let id_found : at env 1 (upper_case tenant_id) "ID" ≡ some id =
        at_is 1 "ID" _ found.id_at ∙ unless_blank-word id named in
      let gap : at env 2 (upper_case tenant_id) "ID" ≡ none = at_is 2 "ID" _ found.next_at in
      let ended : instances_from (suc (suc (length env))) env tenant_id 1 []
          ≡ some (ok (block_instance tenant_id id suite m ∷ [])) =
        rw id_found (rw parse_instance-block (rw gap refl)) in
      cc (sym run ∙ ended)
