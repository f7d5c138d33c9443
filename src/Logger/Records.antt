-- ===== src/Logger/Records.antt =====
-- What a line's record holds under a key.
use vcalm_status_service.Common.{
  String, Option, none, some, [], ◌∷◌, if◌then◌else◌, ◌==◌, string_eq,
}
use vcalm_status_service.Common.Dict
use vcalm_status_service.Common.Dict.{Dict}
use vcalm_status_service.Logger.{LogValue, LogFields, Logger}

-- The first of two, if it is there.
abbrev pub either {ℓ} : {A : Type ℓ} → Option A → Option A → Option A
either none b = b
either (some a) b = some a

-- The value that is written last under a key.
abbrev pub last : String → LogFields → Option LogValue
last k [] = none
last k ((j, v) ∷ m) = either (last k m) (if j == k then some v else none)
