-- ===== src/Routes.antt =====
-- The handlers of service/src/routes, on the state of the services. A handler gets the request's
-- parts that it reads, behind the schema where it has one.
pub mod Retrieve
pub mod Update
pub mod Create
pub mod Allocate
use vcalm_status_service.Common.{String, get_or}
use vcalm_status_service.Storage.{StatusListRecord}
use vcalm_status_service.StatusLists.Credential.{status_list_url}

-- `canonicalUrlOf`, which two of the route files declare.
abbrev pub canonical_url_of : StatusListRecord → String → String
canonical_url_of r public_base_url =
    get_or (r.signed_credential.unsigned.id) (status_list_url public_base_url (r.id))
