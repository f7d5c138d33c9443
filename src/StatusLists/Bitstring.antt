-- ===== src/StatusLists/Bitstring.antt =====
-- service/src/status-lists/bitstring.ts over the package @interop/vc-bitstring-status-list, which
-- is a parameter. `none` is a thrown error of the package: a text that is no encoded list, or an
-- index outside the bits.
use vcalm_status_service.Common.{
  ℕ, ◌≤◌, ◌<◌, String, ◌≡◌, Bool, false, Option, none, some, ◌==◌, nat_eq, if◌then◌else◌,
}
use vcalm_status_service.Json.{Fields}
use vcalm_status_service.VcSigner.{Context, CredentialType}
use vcalm_status_service.Storage.{StatusPurpose}

-- `encodedList`, and the other members of the package's `credentialSubject`.
pub record CredentialSubject : Type 0 where
  pub encoded_list : String
  pub others : Fields

pub record BaseCredential : Type 0 where
  pub context : Context
  pub id : String
  pub type : CredentialType
  pub subject : CredentialSubject

pub record BitstringLibrary : Type 1 where
  pub BitstringStatusList : Type 0
  pub size : BitstringStatusList → ℕ
  pub create_list : ℕ → BitstringStatusList
  pub decode_list : String → Option BitstringStatusList
  pub get_status : BitstringStatusList → ℕ → Option Bool
  pub set_status : BitstringStatusList → ℕ → Bool → Option BitstringStatusList
  pub create_credential : String → BitstringStatusList → StatusPurpose → BaseCredential

-- What the package documents: a new list is clear, a write changes one bit, the credential has the
-- id it was asked for, and its encoding decodes to the bits, padded at most.
pub record BitstringLaws (lib : BitstringLibrary) : Type 0 where
  pub size-create : (n : ℕ) → n ≤ lib.size (lib.create_list n)
  pub get-create : (n i : ℕ) → i < n → lib.get_status (lib.create_list n) i ≡ some false
  pub get_in_range :
      (b : lib.BitstringStatusList) (i : ℕ)
      → i < lib.size b
      → (v : Bool) × (lib.get_status b i ≡ some v)
  pub set_in_range :
      (b : lib.BitstringStatusList) (i : ℕ) (v : Bool)
      → i < lib.size b
      → (c : lib.BitstringStatusList) × (lib.set_status b i v ≡ some c)
        × (lib.size b ≤ lib.size c)
        × ((j : ℕ)
            → j < lib.size b
            → lib.get_status c j ≡ (if i == j then some v else lib.get_status b j))
  pub credential_id :
      (u : String) (b : lib.BitstringStatusList) (p : StatusPurpose)
      → (lib.create_credential u b p).id ≡ u
  pub decode_credential :
      (u : String) (b : lib.BitstringStatusList) (p : StatusPurpose)
      → (c : lib.BitstringStatusList) × (lib.decode_list
            (lib.create_credential u b p).subject.encoded_list
          ≡ some c)
        × (lib.size b ≤ lib.size c)
        × ((j : ℕ) → j < lib.size b → lib.get_status c j ≡ lib.get_status b j)

module _ (lib : BitstringLibrary) where
  abbrev status_of : Option lib.BitstringStatusList → ℕ → Option Bool
  status_of none i = none
  status_of (some b) i = lib.get_status b i

  -- `readStatus`
  unfoldable pub read_status : String → ℕ → Option Bool
  read_status encoded i = status_of (lib.decode_list encoded) i
