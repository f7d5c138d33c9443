-- ===== src/Storage/Schema.antt =====
-- service/src/services/storage-sql-schema.ts: the rows of the two tables, and the records that they
-- are read back as.
use vcalm_status_service.Common.{ℕ, ◌+◌, String, ◌≡◌, ap, ◌∙◌, Bool, leb}
use vcalm_status_service.VcSigner.{VerifiableCredential}
use vcalm_status_service.Storage.{
  Date, StatusPurpose, StatusListCharacteristics, StatusListRecord, IndexAllocation,
  StatusListMaterialization, materialized,
}

-- The columns that hold no value of their own kind: the text that `JSON.stringify` writes of a
-- document, which `JSON.parse` reads back, and the text that `toISOString` writes of a date, which
-- `Date` reads back and which sorts as the dates do.
pub record Columns : Type 1 where
  pub Document : Type 0
  pub characteristics_text : StatusListCharacteristics → Document
  pub parsed_characteristics : Document → StatusListCharacteristics
  pub credential_text : VerifiableCredential → Document
  pub parsed_credential : Document → VerifiableCredential
  pub Timestamp : Type 0
  pub to_iso_string : Date → Timestamp
  pub date_of : Timestamp → Date
  pub is_ordered : Timestamp → Timestamp → Bool
  pub parsed_characteristics-text :
      (c : StatusListCharacteristics) → parsed_characteristics (characteristics_text c) ≡ c
  pub parsed_credential-text :
      (c : VerifiableCredential) → parsed_credential (credential_text c) ≡ c
  pub date_of-iso : (d : Date) → date_of (to_iso_string d) ≡ d
  pub is_ordered_lem : (a b : Timestamp) → is_ordered a b ≡ leb (date_of a) (date_of b)

module _ (columns : Columns) where
  pub record StatusListTable : Type 0 where
    pub id : String
    pub tenant_id : String
    pub issuer_instance_id : String
    pub status_purpose : StatusPurpose
    pub characteristics : columns.Document
    pub encoded_list : String
    pub signed_credential : columns.Document
    pub version : ℕ
    pub created_at : columns.Timestamp
    pub updated_at : columns.Timestamp

  pub record IndexAllocationTable : Type 0 where
    pub list_id : String
    pub tenant_id : String
    pub credential_id : String
    pub status_purpose : StatusPurpose
    pub status_list_index : ℕ
    pub allocated_at : columns.Timestamp

  -- `statusListRow`
  abbrev pub status_list_row : StatusListRecord → StatusListTable
  status_list_row r = record {
    id = r.id;
    tenant_id = r.tenant_id;
    issuer_instance_id = r.issuer_instance_id;
    status_purpose = r.status_purpose;
    characteristics = columns.characteristics_text r.characteristics;
    encoded_list = r.encoded_list;
    signed_credential = columns.credential_text r.signed_credential;
    version = r.version;
    created_at = columns.to_iso_string r.created_at;
    updated_at = columns.to_iso_string r.updated_at;
  }

  -- `statusListRecord`
  abbrev pub status_list_record : StatusListTable → StatusListRecord
  status_list_record row = record {
    base = record {
      id = row.id;
      tenant_id = row.tenant_id;
      issuer_instance_id = row.issuer_instance_id;
      status_purpose = row.status_purpose;
      characteristics = columns.parsed_characteristics row.characteristics;
      encoded_list = row.encoded_list;
      signed_credential = columns.parsed_credential row.signed_credential;
    };
    version = row.version;
    created_at = columns.date_of row.created_at;
    updated_at = columns.date_of row.updated_at;
  }

  -- The row that is inserted for an allocation.
  abbrev pub allocation_row : IndexAllocation → IndexAllocationTable
  allocation_row a = record {
    list_id = a.list_id;
    tenant_id = a.tenant_id;
    credential_id = a.credential_id;
    status_purpose = a.status_purpose;
    status_list_index = a.status_list_index;
    allocated_at = columns.to_iso_string a.allocated_at;
  }

  -- `allocationRecord`
  abbrev pub allocation_record : IndexAllocationTable → IndexAllocation
  allocation_record row = record {
    base = record {
      query = record {
        tenant_id = row.tenant_id;
        credential_id = row.credential_id;
        status_purpose = row.status_purpose;
      };
      list_id = row.list_id;
      status_list_index = row.status_list_index;
    };
    allocated_at = columns.date_of row.allocated_at;
  }

  -- The columns that an update sets.
  abbrev pub set_columns :
      Date → StatusListMaterialization → StatusListTable → StatusListTable → StatusListTable
  set_columns now m current row = record row {
    encoded_list = m.encoded_list;
    signed_credential = columns.credential_text m.signed_credential;
    version = current.version + 1;
    updated_at = columns.to_iso_string now;
  }

  -- What is read of a row differs from a record in the columns that hold texts.
  abbrev read_as :
      StatusListRecord
      → StatusListCharacteristics
      → VerifiableCredential
      → Date
      → Date
      → StatusListRecord
  read_as r characteristics credential created updated = record r {
    base = record (r.base) { characteristics = characteristics; signed_credential = credential };
    created_at = created;
    updated_at = updated;
  }

  -- A record is read back from its row.
  pub status_list_record-row : (r : StatusListRecord) → status_list_record (status_list_row r) ≡ r
  status_list_record-row r =
      ap
        (λ x.
          read_as r x (columns.parsed_credential (columns.credential_text r.signed_credential))
            (columns.date_of (columns.to_iso_string r.created_at))
            (columns.date_of (columns.to_iso_string r.updated_at)))
        (columns.parsed_characteristics-text r.characteristics)
      ∙ ap
          (λ x.
            read_as r r.characteristics x (columns.date_of (columns.to_iso_string r.created_at))
              (columns.date_of (columns.to_iso_string r.updated_at)))
          (columns.parsed_credential-text r.signed_credential)
      ∙ ap
          (λ x.
            read_as r r.characteristics r.signed_credential x
              (columns.date_of (columns.to_iso_string r.updated_at)))
          (columns.date_of-iso r.created_at)
      ∙ ap (λ x. read_as r r.characteristics r.signed_credential r.created_at x)
          (columns.date_of-iso r.updated_at)

  -- An allocation is read back from its row.
  pub allocation_record-row : (a : IndexAllocation) → allocation_record (allocation_row a) ≡ a
  allocation_record-row a =
      ap (λ (d : Date). record a { allocated_at = d }) (columns.date_of-iso a.allocated_at)

  -- A row that an update sets is read as the record with the materialization written to it.
  pub status_list_record-set_columns :
      (now : Date) (m : StatusListMaterialization) (row : StatusListTable)
      → status_list_record (set_columns now m row row) ≡ materialized now m (status_list_record row)
  status_list_record-set_columns now m row =
      let r = materialized now m (status_list_record row) in
      ap
        (λ x.
          read_as r r.characteristics x r.created_at (columns.date_of (columns.to_iso_string now)))
        (columns.parsed_credential-text m.signed_credential)
      ∙ ap (λ x. read_as r r.characteristics m.signed_credential r.created_at x)
          (columns.date_of-iso now)
