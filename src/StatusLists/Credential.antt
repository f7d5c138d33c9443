-- ===== src/StatusLists/Credential.antt =====
-- service/src/status-lists/credential.ts and entry.ts: the URL of a list, the credential that
-- publishes its bits, and the entry that an issued credential carries.
use vcalm_status_service.Common.{ℕ, String, Option, none, some}
use vcalm_status_service.Common.Text.{◌⧺◌, decimal, iso_seconds, encode_uri_component}
use vcalm_status_service.Json.{nat, num, str, obj, Fields, end, field, with_member}
use vcalm_status_service.VcSigner.{UnsignedCredential, did}
use vcalm_status_service.Storage.{Date, StatusPurpose}
use vcalm_status_service.StatusLists.Bitstring.{BitstringLibrary, CredentialSubject}

unfoldable pub status_list_url : String → String → String
status_list_url public_base_url id = public_base_url ⧺ "/status-lists/" ⧺ encode_uri_component id

-- `{ ...base.credentialSubject, ...(ttl === undefined ? {} : { ttl }) }`
subject_json : CredentialSubject → Option ℕ → Fields
subject_json s none = field "encodedList" (str s.encoded_list) s.others
subject_json s (some t) =
    with_member "ttl" (num (nat t)) (field "encodedList" (str s.encoded_list) s.others)

pub record StatusListMaterial : Type 0 where
  pub encoded_list : String
  pub unsigned : UnsignedCredential

module _ (lib : BitstringLibrary) where
  pub record StatusListCredentialInput : Type 0 where
    pub url : String
    pub issuer : String
    pub status_purpose : StatusPurpose
    pub list : lib.BitstringStatusList
    pub ttl : Option ℕ
    pub valid_from : Date

  unfoldable pub build_status_list_credential : StatusListCredentialInput → StatusListMaterial
  unfolding subject_json
  build_status_list_credential input =
      let base = lib.create_credential (input.url) (input.list) (input.status_purpose) in
      record {
        encoded_list = base.subject.encoded_list;
        unsigned = record {
          context = base.context;
          id = some base.id;
          type = base.type;
          issuer = did input.issuer;
          rest =
              field "validFrom" (str (iso_seconds input.valid_from))
                (field "credentialSubject" (obj (subject_json base.subject input.ttl)) end);
        };
      }

-- `BitstringStatusListEntry`
pub record BitstringStatusListEntry : Type 0 where
  pub id : String
  pub type : String
  pub status_purpose : StatusPurpose
  pub status_list_index : String
  pub status_list_credential : String

unfoldable pub bitstring_status_list_entry : String → ℕ → StatusPurpose → BitstringStatusListEntry
bitstring_status_list_entry url index purpose = record {
  id = url ⧺ "#" ⧺ decimal index;
  type = "BitstringStatusListEntry";
  status_purpose = purpose;
  status_list_index = decimal index;
  status_list_credential = url;
}
