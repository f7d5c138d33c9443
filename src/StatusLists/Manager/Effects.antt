-- ===== src/StatusLists/Manager/Effects.antt =====
-- The state that the manager's methods change.
use vcalm_status_service.Common.{ℕ, ◌+◌, String, Option}
use vcalm_status_service.Errors.{ok, Action}
use vcalm_status_service.Storage.{StatusListRecord, StorageService}
use vcalm_status_service.Signing.{SigningService}

module _ (signing : SigningService) where
  pub record Outside : Type 0 where
    pub signer : signing.State
    pub draws : ℕ

  abbrev pub call_signer : {A : Type 0} → Action signing.State A → Action Outside A
  call_signer m o = let (r, s) = m o.signer in (r, record o { signer = s })

  -- The next reading of a clock, or the next value of a generator.
  abbrev pub draw : {A : Type 0} → (ℕ → A) → Action Outside A
  draw f o = (ok (f o.draws), record o { draws = o.draws + 1 })

  -- The storage's state and what lies outside it.
  abbrev pub World : StorageService → Type 0
  World storage = storage.State × Outside

  module _ (storage : StorageService) where
    abbrev pub outside : {A : Type 0} → Action Outside A → Action (World storage) A
    outside m (s, o) = let (r, o') = m o in (r, (s, o'))

    abbrev pub in_storage : {A : Type 0} → Action storage.State A → Action (World storage) A
    in_storage m (s, o) = let (r, s') = m s in (r, (s', o))

    abbrev pub get_list : String → World storage → Option StatusListRecord
    get_list id (s, o) = storage.get_status_list id s
