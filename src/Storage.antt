-- ===== src/Storage.antt =====
-- service/src/services/storage.ts: what is stored, and the interface `StorageService`. A date is
-- its milliseconds since the epoch.
pub mod Contract
pub mod Memory
pub mod Schema
pub mod Sql
use vcalm_status_service.Common.{
  ℕ, ◌+◌, String, ◌≡◌, refl, ◌↔◌, Bool, true, false, Option, none, some, List, Comparable, arith,
  ◌==◌, string_eq, ◌&&◌, ◌||◌,
}
use vcalm_status_service.Errors.{Action}
use vcalm_status_service.VcSigner.{VerifiableCredential}

abbrev pub Date : Type 0
Date = ℕ

pub data StatusPurpose : Type 0 where
  revocation suspension : StatusPurpose

abbrev purpose_beq : StatusPurpose → StatusPurpose → Bool
purpose_beq revocation revocation = true
purpose_beq suspension suspension = true
purpose_beq _ _ = false

pub purpose_beq_iff : (a b : StatusPurpose) → (purpose_beq a b ≡ true) ↔ (a ≡ b)
purpose_beq_iff a b = ground arith

instance abbrev pub purpose_eq : Comparable StatusPurpose
purpose_eq = record { test = purpose_beq; agrees = purpose_beq_iff }

-- `MINIMUM_LIST_LENGTH`
abbrev pub minimum_list_length : ℕ
minimum_list_length = 131072

pub record StatusMessage : Type 0 where
  pub status : String
  pub message : String

pub record StatusListCharacteristics : Type 0 where
  pub length : ℕ
  pub status_size : ℕ
  pub status_message : Option (List StatusMessage)
  pub ttl : Option ℕ

pub record NewStatusListRecord : Type 0 where
  pub id : String
  pub tenant_id : String
  pub issuer_instance_id : String
  pub status_purpose : StatusPurpose
  pub characteristics : StatusListCharacteristics
  pub encoded_list : String
  pub signed_credential : VerifiableCredential

pub record StatusListRecord : Type 0 where
  pub base : NewStatusListRecord
  pub open base use *
  pub version : ℕ
  pub created_at : Date
  pub updated_at : Date

pub record AllocationQuery : Type 0 where
  pub tenant_id : String
  pub credential_id : String
  pub status_purpose : StatusPurpose

pub record NewIndexAllocation : Type 0 where
  pub query : AllocationQuery
  pub open query use *
  pub list_id : String
  pub status_list_index : ℕ

pub record IndexAllocation : Type 0 where
  pub base : NewIndexAllocation
  pub open base use *
  pub allocated_at : Date

pub record StatusListMaterialization : Type 0 where
  pub encoded_list : String
  pub signed_credential : VerifiableCredential

pub record StatusListMutationResult (T : Type 0) : Type 0 where
  pub materialization : Option StatusListMaterialization
  pub result : T

pub record ListQuery : Type 0 where
  pub tenant_id : String
  pub status_purpose : Option StatusPurpose
  pub issuer_instance_id : Option String

-- The operations of `interface StorageService`, over the backend's state. A date is the reading of
-- the clock that the operation makes; `update_status_list` reads it after `mutate`, from the state
-- `W` that `mutate` changes.
pub record StorageService : Type 1 where
  pub State : Type 0
  -- The state of a new backend, once `init` has run.
  pub opened : State
  pub close : State → State
  pub create_status_list : Date → NewStatusListRecord → Action State StatusListRecord
  pub get_status_list : String → State → Option StatusListRecord
  pub find_status_lists : ListQuery → State → List StatusListRecord
  pub update_status_list :
      (W T : Type 0)
      → (W → Date × W)
      → String
      → (StatusListRecord → Action W (StatusListMutationResult T))
      → Action (State × W) T
  pub allocate_index : Date → NewIndexAllocation → Action State IndexAllocation
  pub get_allocation : AllocationQuery → State → Option IndexAllocation
  pub is_index_allocated : String → ℕ → State → Bool
  pub count_allocations : String → State → ℕ

-- A record as it is first stored.
abbrev pub first_version : Date → NewStatusListRecord → StatusListRecord
first_version now r = record { base = r; version = 1; created_at = now; updated_at = now }

-- A record with a materialization written to it.
abbrev pub materialized : Date → StatusListMaterialization → StatusListRecord → StatusListRecord
materialized now m r = record r {
  base = record (r.base) { encoded_list = m.encoded_list; signed_credential = m.signed_credential };
  version = r.version + 1;
  updated_at = now;
}

-- `x === undefined || x === y`
abbrev pub matches_if_given : {A : Type 0} ⦃e : Comparable A⦄ → Option A → A → Bool
matches_if_given none b = true
matches_if_given (some a) b = b == a

-- The filter of `findStatusLists`.
abbrev pub matches : ListQuery → StatusListRecord → Bool
matches q list =
    list.tenant_id == q.tenant_id
    && matches_if_given q.status_purpose list.status_purpose
    && matches_if_given q.issuer_instance_id list.issuer_instance_id
