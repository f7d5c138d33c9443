-- ===== src/Json.antt =====
-- JSON values, for what the program types as `unknown`: request bodies and the open part of a
-- credential. A number is a natural, a negative integer, or anything else by its text.
use vcalm_status_service.Common.{
  ℕ, String, Bool, Option, none, some, if◌then◌else◌, ◌==◌, string_eq,
}

-- A JavaScript number: `nat n`, `negative n` for -(n + 1), and `inexact` for all that
-- `Number.isInteger` refuses.
pub data Number : Type 0 where
  nat : ℕ → Number
  negative : ℕ → Number
  inexact : String → Number

mutual
  pub data Json : Type 0 where
    null : Json
    bool : Bool → Json
    num : Number → Json
    str : String → Json
    arr : Items → Json
    obj : Fields → Json

  pub data Items : Type 0 where
    nil : Items
    cons : Json → Items → Items

  pub data Fields : Type 0 where
    end : Fields
    field : String → Json → Fields → Fields

-- `o[key]`
abbrev pub member : String → Fields → Option Json
member key end = none
member key (field k v fs) = if k == key then some v else member key fs

-- `{ ...o, [key]: v }`: a key that is there keeps its place.
abbrev pub with_member : String → Json → Fields → Fields
with_member key v end = field key v end
with_member key v (field k w fs) =
    if k == key then field k v fs else field k w (with_member key v fs)

-- `[...items, v]`
abbrev pub push : Items → Json → Items
push nil v = cons v nil
push (cons w items) v = cons w (push items v)
