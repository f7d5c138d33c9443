-- ===== src/VcSigner/Verify.antt =====
-- packages/vc-signer/src/verify.ts and document-loader.ts, and `verificationMethodNodes` of did.ts: the
-- suite that a credential is verified with, and the documents that need no network. The verification
-- itself, `getNode` and the static documents of the security loader are parameters.
use vcalm_status_service.Common.{
  String, ◌≡◌, refl, ap, ◌∙◌, inl, inr, Bool, true, false, Option, none, some, List, [], ◌∷◌,
  Member, ◌==◌, string_eq, eq_iff, eq_refl, if◌then◌else◌,
}
use vcalm_status_service.Common.Dict
use vcalm_status_service.Common.Dict.{Dict, get-put}
use vcalm_status_service.Json.{Json, str, arr, obj, Items, nil, cons, Fields, member}
use vcalm_status_service.Errors.{
  Result, ok, err, signing_error, invalid_credential, unsupported_cryptosuite,
}
use vcalm_status_service.Errors.Results.{◌>>=◌, found_or}
use vcalm_status_service.VcSigner.{
  VerifiableCredential, Proof, one_proof, many_proofs, Cryptosuite, supported_cryptosuite,
}

-- `firstProof`
abbrev pub first_proof : Proof → Result Fields
first_proof (one_proof proof) = ok proof
first_proof (many_proofs []) = err (signing_error invalid_credential)
first_proof (many_proofs (proof ∷ _)) = ok proof

-- The name of the suite, where the type is that of a Data Integrity proof, or of no such.
abbrev is_data_integrity : Option Json → Bool
is_data_integrity (some (str type)) = type == "DataIntegrityProof"
is_data_integrity _ = false

abbrev pub named_in : Fields → Option Json
named_in proof =
    if is_data_integrity (member "type" proof)
    then member "cryptosuite" proof
    else member "type" proof

-- `getCryptosuite`
abbrev pub get_cryptosuite : String → Result Cryptosuite
get_cryptosuite name = found_or (supported_cryptosuite name) (signing_error unsupported_cryptosuite)

abbrev suite_of_name : Option Json → Result Cryptosuite
suite_of_name (some (str name)) = get_cryptosuite name
suite_of_name _ = err (signing_error invalid_credential)

-- `proofCryptosuite`
unfoldable pub proof_cryptosuite : VerifiableCredential → Result Cryptosuite
proof_cryptosuite credential =
    first_proof credential.proof >>= λ (proof : Fields). suite_of_name (named_in proof)

pub record DidDocument : Type 0 where
  pub id : String
  pub members : Fields

abbrev node_ids_of : Option Json → List String → List String
node_ids_of (some (str id)) rest = id ∷ rest
node_ids_of _ rest = rest

abbrev node_ids : Items → List String
node_ids nil = []
node_ids (cons (obj method) methods) = node_ids_of (member "id" method) (node_ids methods)
node_ids (cons _ methods) = node_ids methods

abbrev methods_in : Option Json → List String
methods_in (some (arr methods)) = node_ids methods
methods_in _ = []

-- The ids that a document publishes verification methods under.
abbrev pub verification_method_ids : DidDocument → List String
verification_method_ids document = methods_in (member "verificationMethod" document.members)

module _ (get_node : DidDocument → String → Json) where
  abbrev nodes : DidDocument → List String → List (String × Json)
  nodes document [] = []
  nodes document (id ∷ ids) = (id, get_node document id) ∷ nodes document ids

  -- `verificationMethodNodes`
  unfoldable pub verification_method_nodes : DidDocument → List (String × Json)
  verification_method_nodes document = nodes document (verification_method_ids document)

  -- `addStatic`, for each node.
  abbrev pub add_statics : List (String × Json) → Dict Json → Dict Json
  add_statics [] statics = statics
  add_statics ((id, node) ∷ rest) statics = add_statics rest (Dict.put id node statics)

  -- `createDocumentLoader`: the static documents of the loader.
  unfoldable pub create_document_loader :
      (DidDocument → Json) → Dict Json → Option DidDocument → Dict Json
  create_document_loader to_json statics none = statics
  create_document_loader to_json statics (some document) =
      add_statics (verification_method_nodes document)
        (Dict.put document.id (to_json document) statics)

  -- `verifyCredential`
  unfoldable pub verify_credential :
      {V : Type 0}
      → (DidDocument → Json)
      → Dict Json
      → (Cryptosuite → VerifiableCredential → Dict Json → Result V)
      → VerifiableCredential
      → Option DidDocument
      → Result V
  verify_credential to_json statics verify_with credential document =
      proof_cryptosuite credential >>= λ (suite : Cryptosuite).
      verify_with suite credential (create_document_loader to_json statics document)

  add_statics-keeps :
      (document : DidDocument) (ids : List String) (statics : Dict Json) (id : String)
      → Dict.get id statics ≡ some (get_node document id)
      → Dict.get id (add_statics (nodes document ids) statics) ≡ some (get_node document id)
  add_statics-keeps document [] statics id h = h
  add_statics-keeps document (i ∷ ids) statics id h =
      add_statics-keeps document ids (Dict.put i (get_node document i) statics) id
        (get-put i id (get_node document i) statics ∙ by_key (i == id) ((eq_iff i id).0))
    where
      by_key :
          (same : Bool)
          → (same ≡ true → i ≡ id)
          → (if same then some (get_node document i) else Dict.get id statics)
            ≡ some (get_node document id)
      by_key true e = ap (λ k. some (get_node document k)) (e refl)
      by_key false e = h

  add_statics-Member :
      (document : DidDocument) (ids : List String) (statics : Dict Json) (id : String)
      → Member id ids
      → Dict.get id (add_statics (nodes document ids) statics) ≡ some (get_node document id)
  add_statics-Member document [] statics id h = elim h [ ]
  add_statics-Member document (i ∷ ids) statics id (inl same) =
      add_statics-keeps document ids (Dict.put i (get_node document i) statics) id
        (get-put i id (get_node document i) statics ∙ rw (same, eq_refl id) refl)
  add_statics-Member document (i ∷ ids) statics id (inr later) =
      add_statics-Member document ids (Dict.put i (get_node document i) statics) id later

  -- A loader for a document resolves the id of each verification method that the document publishes
  -- to its node, whatever was static before.
  pub create_document_loader-Member :
      (to_json : DidDocument → Json) (statics : Dict Json) (document : DidDocument) (id : String)
      → Member id (verification_method_ids document)
      → Dict.get id (create_document_loader to_json statics (some document))
        ≡ some (get_node document id)
  unfolding create_document_loader verification_method_nodes
  create_document_loader-Member to_json statics document id h =
      add_statics-Member document (verification_method_ids document) _ id h
