-- ===== src/StatusLists/Manager.antt =====
-- service/src/status-lists/manager.ts: `StatusListManager`, each method an action on the storage's
-- state and what lies outside it: the signer's state, and the number of draws made so far from the
-- clocks and the generators, which are sequences.
pub mod Effects
pub mod Lists
pub mod Allocation
pub mod Signs
pub mod Updates
pub mod SetStatus
pub mod Failures
pub mod Finds
pub mod Atomic
pub mod Creates
pub mod Allocates
pub mod RoundTrip
pub mod Selects
use mathlib.Core.List.{reverse}
use vcalm_status_service.Common.{
  ℕ, zero, suc, ◌+◌, ◌*◌, String, Bool, true, false, not, ◌&&◌, ◌||◌, Option, none, some, List, [],
  ◌∷◌, ◌==◌, nat_eq, string_eq, if◌then◌else◌, ltb, is_some, get_or,
}
use vcalm_status_service.Json.{Number, nat, negative, inexact}
use vcalm_status_service.Errors.{
  Error, Result, ok, err, Action, pure, throw, lift, gets, or_throw, throw_if, ◌>>=◌, ◌>>◌,
  status_list_error, storage_error, StatusListErrorCode, index_taken, plain_error, list_too_short,
  unsupported_characteristics, list_purpose_mismatch, issuer_instance_unavailable,
  index_out_of_range, credential_not_allocated, list_exhausted,
}
use vcalm_status_service.VcSigner.{VerifiableCredential}
use vcalm_status_service.Storage.{
  Date, StatusPurpose, purpose_eq, minimum_list_length, StatusMessage, StatusListCharacteristics,
  NewStatusListRecord, StatusListRecord, AllocationQuery, NewIndexAllocation, IndexAllocation,
  StatusListMaterialization, StatusListMutationResult, ListQuery, StorageService,
}
use vcalm_status_service.Tenants.{
  IssuerInstance, TenantRecord, TenantRegistry, resolve_issuer_instance,
}
use vcalm_status_service.Signing.{SigningService}
use vcalm_status_service.StatusLists.Bitstring.{BitstringLibrary}
use vcalm_status_service.StatusLists.Credential.{status_list_url, build_status_list_credential}
use Effects.{Outside, World, call_signer, outside, in_storage, draw}

-- `StatusListManagerDeps`, without the services that are state. `system_clock` is the clock that
-- storage reads; `roll_at_fill` is a fraction, 1/2 unless a caller sets it.
pub record Deps : Type 0 where
  pub tenants : TenantRegistry
  pub public_base_url : String
  pub now : ℕ → Date
  pub system_clock : ℕ → Date
  pub random_index : ℕ → ℕ → ℕ
  pub generate_id : ℕ → String
  pub roll_numerator : ℕ
  pub roll_denominator : ℕ

pub record RequestedCharacteristics : Type 0 where
  pub length : Option ℕ
  pub status_size : Option ℕ
  pub status_message : Option (List StatusMessage)
  pub ttl : Option ℕ

pub record CreateStatusListInput : Type 0 where
  pub tenant_id : String
  pub instance_of : IssuerInstance
  pub status_purpose : StatusPurpose
  pub id : Option String
  pub url : Option String
  pub characteristics : Option RequestedCharacteristics

pub record StatusChange : Type 0 where
  pub changed : Bool
  pub list : StatusListRecord
  pub status_list_index : ℕ

pub record Allocated : Type 0 where
  pub allocation : IndexAllocation
  pub list : StatusListRecord

-- `ALLOCATION_ATTEMPTS`
abbrev pub allocation_attempts : ℕ
allocation_attempts = 64

abbrev no_request : RequestedCharacteristics
no_request = record { length = none; status_size = none; status_message = none; ttl = none }

-- `x !== undefined && x !== 1`
abbrev other_than_one : Option ℕ → Bool
other_than_one none = false
other_than_one (some n) = not (n == 1)

checked_characteristics : RequestedCharacteristics → Result StatusListCharacteristics
checked_characteristics r =
    if ltb (get_or r.length minimum_list_length) minimum_list_length
    then err (status_list_error list_too_short)
    else if other_than_one r.status_size || is_some r.status_message
    then err (status_list_error unsupported_characteristics)
    else ok (record {
      length = get_or r.length minimum_list_length;
      status_size = 1;
      status_message = none;
      ttl = r.ttl;
    })

-- `#characteristics`
unfoldable pub characteristics_of :
    Option RequestedCharacteristics → Result StatusListCharacteristics
unfolding checked_characteristics
characteristics_of requested = checked_characteristics (get_or requested no_request)

-- The index, if it is an integer from 0 up to the length.
unfoldable pub index_in_range : Number → ℕ → Option ℕ
index_in_range (nat i) n = if ltb i n then some i else none
index_in_range (negative _) n = none
index_in_range (inexact _) n = none

-- `list.getStatus(index) === status`
abbrev pub same_status : Bool → Bool → Bool
same_status true b = b
same_status false b = not b

-- An idempotent write: no new bytes, no new signature and no new version.
abbrev pub untouched : StatusListRecord → ℕ → StatusListMutationResult StatusChange
untouched current i = record {
  materialization = none;
  result = record { changed = false; list = current; status_list_index = i };
}

abbrev resolved : Option TenantRecord → Option String → Option IssuerInstance
resolved none wanted = none
resolved (some tenant) wanted = resolve_issuer_instance tenant wanted

module _ (deps : Deps) where
  -- `#canonicalUrl`
  abbrev pub canonical_url : StatusListRecord → String
  canonical_url r =
      get_or (r.signed_credential.unsigned.id) (status_list_url deps.public_base_url (r.id))

  -- `#instanceFor`
  unfoldable pub instance_for : StatusListRecord → Option IssuerInstance
  instance_for r = resolved (deps.tenants.get_tenant (r.tenant_id)) (some (r.issuer_instance_id))

  -- `#defaultInstanceFor`
  unfoldable pub default_instance_for : String → Option IssuerInstance
  default_instance_for tenant_id = resolved (deps.tenants.get_tenant tenant_id) none

module _ (lib : BitstringLibrary) (signing : SigningService) (deps : Deps) where
  -- `#materialize`
  unfoldable pub materialize :
      String
      → IssuerInstance
      → StatusPurpose
      → lib.BitstringStatusList
      → Option ℕ
      → Action (Outside signing) StatusListMaterialization
  materialize url inst purpose list ttl = do
    issuer ← call_signer signing (signing.issuer_did inst)
    valid_from ← draw signing deps.now
    let material = build_status_list_credential lib (record {
      url = url;
      issuer = issuer;
      status_purpose = purpose;
      list = list;
      ttl = ttl;
      valid_from = valid_from;
    })
    signed ← call_signer signing (signing.sign inst material.unsigned)
    pure (record { encoded_list = material.encoded_list; signed_credential = signed })

  -- The rest of `#applyStatus`, once the bits are read.
  unfoldable pub flip_status :
      StatusListRecord
      → IssuerInstance
      → ℕ
      → Bool
      → lib.BitstringStatusList
      → Action (Outside signing) (StatusListMutationResult StatusChange)
  flip_status current inst i status bits = do
    bits' ← or_throw (lib.set_status bits i status) plain_error
    m ←
        materialize (canonical_url deps current) inst (current.status_purpose) bits'
          (current.characteristics.ttl)
    updated ← draw signing deps.now
    pure (record {
      materialization = some m;
      result = record {
        changed = true;
        list = record current {
          base = record (current.base) {
            encoded_list = m.encoded_list;
            signed_credential = m.signed_credential;
          };
          version = current.version + 1;
          updated_at = updated;
        };
        status_list_index = i;
      };
    })

  -- `#applyStatus`
  unfoldable pub apply_status :
      StatusListRecord
      → IssuerInstance
      → Number
      → Bool
      → Action (Outside signing) (StatusListMutationResult StatusChange)
  apply_status current inst index status = do
    i ←
        or_throw (index_in_range index (current.characteristics.length))
          (status_list_error index_out_of_range)
    bits ← or_throw (lib.decode_list (current.encoded_list)) plain_error
    held ← or_throw (lib.get_status bits i) plain_error
    if same_status held status
        then pure (untouched current i)
        else flip_status current inst i status bits

-- Storage's own reading of the clock.
abbrev pub reading : (signing : SigningService) → Deps → Outside signing → Date × Outside signing
reading signing deps o = (deps.system_clock o.draws, record o { draws = o.draws + 1 })
