-- ===== src/Logger.antt =====
-- service/src/logger.ts: which lines a logger writes, and the record that a line is. `JSON.stringify`
-- is a parameter, which may throw.
pub mod Records
use vcalm_status_service.Common.{
  ℕ, String, Bool, not, Option, none, some, List, [], ◌∷◌, ltb, if◌then◌else◌, get_or,
}
use vcalm_status_service.Common.Dict
use vcalm_status_service.Common.Dict.{Dict}
use vcalm_status_service.Json.{Json, str, obj, Fields, field, end}
use vcalm_status_service.Errors.{Result, ok, err}
use vcalm_status_service.Errors.Results.{◌>>=◌}
use vcalm_status_service.Config.{LogLevel, debug, info, warn, error}

-- `LEVEL_ORDER`
abbrev pub level_order : LogLevel → ℕ
level_order debug = 10
level_order info = 20
level_order warn = 30
level_order error = 40

-- Whether a logger of a level writes a line of another.
abbrev pub is_logged : LogLevel → LogLevel → Bool
is_logged level line_level = not (ltb (level_order line_level) (level_order level))

-- A value in a line: an Error, or any other.
pub data LogValue : Type 0 where
  thrown : (name message : String) (stack : Option String) → LogValue
  plain : Json → LogValue

abbrev pub LogFields : Type 0
LogFields = Dict LogValue

abbrev stack_member : Option String → Fields
stack_member none = end
stack_member (some stack) = field "stack" (str stack) end

-- `normalize`
abbrev pub normalize : LogValue → LogValue
normalize (thrown name message stack) =
    plain (obj (field "name" (str name) (field "message" (str message) (stack_member stack))))
normalize (plain j) = plain j

abbrev pub level_name : LogLevel → String
level_name debug = "debug"
level_name info = "info"
level_name warn = "warn"
level_name error = "error"

-- `{ ...record, ...fields }`
abbrev pub spread : LogFields → LogFields → LogFields
spread [] record_of = record_of
spread ((key, value) ∷ fields) record_of = spread fields (Dict.put key value record_of)

-- The loop that adds the fields to the record of a line.
abbrev pub add_fields : LogFields → LogFields → LogFields
add_fields [] record_of = record_of
add_fields ((key, value) ∷ fields) record_of =
    add_fields fields (Dict.put key (normalize value) record_of)

pub record Logger : Type 0 where
  pub level : LogLevel
  pub base : LogFields

-- `child`
unfoldable pub child : LogFields → Logger → Logger
child fields l = record { level = l.level; base = spread fields (l.base) }

-- The record of a line.
unfoldable pub log_record : Logger → String → LogLevel → String → LogFields → LogFields
log_record l time line_level message fields = add_fields fields (
    spread l.base (
      ("time", plain (str time))
      ∷ ("level", plain (str (level_name line_level)))
      ∷ ("msg", plain (str message))
      ∷ []))

module _ (stringify : LogFields → Result String) where
  -- What is written in place of a record that is not serializable.
  abbrev instead : LogFields → LogLevel → String → Result String → Result String
  instead line line_level message (ok text) = ok text
  instead line line_level message (err e) = stringify (
      ("time", get_or (Dict.get "time" line) (plain (str "")))
      ∷ ("level", plain (str (level_name line_level)))
      ∷ ("msg", plain (str message))
      ∷ ("logError", plain (str "log fields were not serializable"))
      ∷ [])

  -- `emit`: the line that is handed to `write`, if there is one.
  unfoldable pub emit :
      Logger → String → LogLevel → String → LogFields → Result (Option (String × LogLevel))
  emit l time line_level message fields =
      let line = log_record l time line_level message fields in
      if is_logged l.level line_level
      then (instead line line_level message (stringify line) >>= λ (text : String).
          ok (some (text, line_level)))
      else ok none
