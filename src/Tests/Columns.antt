-- ===== src/Tests/Columns.antt =====
-- Columns whose texts are kept as what they were written of.
use vcalm_status_service.Common.{refl, leb}
use vcalm_status_service.VcSigner.{VerifiableCredential}
use vcalm_status_service.Storage.{Date, StatusListCharacteristics}
use vcalm_status_service.Storage.Schema.{Columns}
use vcalm_status_service.Tests.Sample.{four}

pub data Written : Type 0 where
  of_characteristics : StatusListCharacteristics → Written
  of_credential : VerifiableCredential → Written

abbrev pub read_characteristics : Written → StatusListCharacteristics
read_characteristics (of_characteristics c) = c
read_characteristics (of_credential c) = four.characteristics

abbrev pub read_credential : Written → VerifiableCredential
read_credential (of_characteristics c) = four.signed_credential
read_credential (of_credential c) = c

abbrev pub columns : Columns
columns = record {
  Document = Written;
  characteristics_text = of_characteristics;
  parsed_characteristics = read_characteristics;
  credential_text = of_credential;
  parsed_credential = read_credential;
  Timestamp = Date;
  to_iso_string = λ d. d;
  date_of = λ d. d;
  is_ordered = leb;
  parsed_characteristics-text = λ c. refl;
  parsed_credential-text = λ c. refl;
  date_of-iso = λ d. refl;
  is_ordered_lem = λ a b. refl;
}
