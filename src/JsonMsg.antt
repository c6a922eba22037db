-- ===== src/JsonMsg.antt =====
-- JsonMsg.h and JsonMsg.cpp: a message, parsed, and what is read from it. The messages that the
-- program builds are in `Build`.
pub mod Build
pub mod Objects
pub mod Arrays
pub mod Modules
pub mod RoundTrip
pub mod Totality
use sacs.Prelude.{
  Bool, List, Option, Result, Text, [], codes, false, if◌then◌else◌, json_error, negsuc, none, not,
  ok, or_throw, pos, some, suc, text_eq, throw, true, zero, ℕ, ℤ, ◌+◌, ◌==ℤ◌, ◌>>=◌, ◌∷◌,
}
use sacs.Json.{JsonLib}
use sacs.Module.{Module, Property, make_module}

-- JsonMsg::Type
pub data MsgType : Type 0 where
  unknown module_add module_del property_update req_load req_apply : MsgType

pub record JsonMsg (J : JsonLib) : Type 0 where
  pub json : J.Json
  pub is_valid : Bool
  pub type : MsgType

-- The `compare` ladder of TryDetectType.
unfoldable pub detect_type : Text → MsgType
detect_type type =
    if text_eq type (codes "module_added")
    then module_add
    else if text_eq type (codes "module_removed")
    then module_del
    else if text_eq type (codes "property_update")
    then property_update
    else if text_eq type (codes "load")
    then req_load
    else if text_eq type (codes "apply")
    then req_apply
    else unknown

module _ (J : JsonLib) where
  open J use {
    Json, null, of_int, parse, overflows, dump, get_int, get_text, find, size, at, put, member,
  }

  -- JsonMsg::JsonMsg
  abbrev pub empty_msg : JsonMsg J
  empty_msg = record { json = null; is_valid = false; type = unknown }

  -- JsonMsg::ValueToString
  unfoldable pub value_to_string : Json → Text → Result Text
  value_to_string json key = elim (find json key) [
    | none ↦ ok []
    | some value ↦ or_throw json_error (get_text value)
  ]

  -- JsonMsg::ValueToInt
  unfoldable pub value_to_int : Json → Text → Result ℤ
  value_to_int json key = elim (find json key) [
    | none ↦ ok (negsuc 0)
    | some value ↦ or_throw json_error (get_int value)
  ]

  -- JsonMsg::TryDetectType
  unfoldable pub try_detect_type : JsonMsg J → Result (JsonMsg J)
  unfolding value_to_string
  try_detect_type msg =
      if msg.is_valid
      then (do
        type ← value_to_string msg.json (codes "type")
        ok (record msg { type = detect_type type }))
      else ok msg

  -- JsonMsg::Parse on a new message. Only `parse_error` is caught.
  unfoldable pub parse_msg : Text → Result (JsonMsg J × Bool)
  unfolding try_detect_type
  parse_msg str = elim (parse str) [
    | none ↦ if overflows str then throw json_error else ok (empty_msg, false)
    | some json ↦ (do
      msg ← try_detect_type (record { json = json; is_valid = true; type = unknown })
      ok (msg, true))
  ]

  -- JsonMsg::ToString
  unfoldable pub to_string : JsonMsg J → Result Text
  to_string msg = if msg.is_valid then or_throw json_error (dump msg.json) else ok []

  abbrev pub int_to_bool : ℤ → Bool
  int_to_bool n = not (n ==ℤ pos 0)

  -- One round of the loop of JsonMsg::ToModule.
  unfoldable pub read_property : Json → Result Property
  unfolding value_to_int value_to_string
  read_property json = do
    type ← value_to_int json (codes "type")
    name ← value_to_string json (codes "name")
    value ← value_to_string json (codes "value")
    read_only ← value_to_int json (codes "read_only")
    ok (record { type = type; name = name; value = value; read_only = int_to_bool read_only })

  -- One round of the loop of JsonMsg::GetPropertiesList.
  unfoldable pub read_update : Json → Result (ℤ × Text)
  unfolding value_to_int value_to_string
  read_update json = do
    id ← value_to_int json (codes "id")
    value ← value_to_string json (codes "value")
    ok (id, value)

  -- `for (i; i < size; ++i) out.push_back(read(array.at(i)))`, by the rounds that are left.
  unfoldable pub read_each {ℓ} : {A : Type ℓ} → (Json → Result A) → ℕ → ℕ → Json → Result (List A)
  read_each read zero i array = ok []
  read_each read (suc rounds) i array = do
    json ← or_throw json_error (at array i)
    a ← read json
    rest ← read_each read rounds (i + 1) array
    ok (a ∷ rest)

  -- JsonMsg::ToModule. The new module has no callback.
  unfoldable pub to_module : JsonMsg J → Result (Option Module)
  unfolding value_to_int value_to_string read_property read_each
  to_module msg = elim (find msg.json (codes "module")) [
    | none ↦ ok none
    | some jmodule ↦ (do
      id ← value_to_int jmodule (codes "id")
      name ← value_to_string jmodule (codes "name")
      (jmodule', properties) ← or_throw json_error (member jmodule (codes "properties"))
      props ← read_each read_property (size properties) 0 properties
      ok (some (make_module id name props none)))
  ]

  -- JsonMsg::FindId
  unfoldable pub find_id : JsonMsg J → Result ℤ
  unfolding value_to_int
  find_id msg = elim msg.type [
    | module_add ↦ elim (find msg.json (codes "module")) [
      | none ↦ ok (negsuc 0)
      | some jmodule ↦ value_to_int jmodule (codes "id")
    ]
    | module_del ↦ value_to_int msg.json (codes "id")
    | property_update ↦ value_to_int msg.json (codes "id")
    | req_apply ↦ value_to_int msg.json (codes "id")
    | _ ↦ ok (negsuc 0)
  ]

  -- JsonMsg::SetId
  unfoldable pub set_msg_id : JsonMsg J → ℤ → Result (JsonMsg J)
  set_msg_id msg id = do
    json ← or_throw json_error (put msg.json (codes "id") (of_int id))
    ok (record msg { json = json })

  abbrev pub carries_properties : MsgType → Bool
  carries_properties req_apply = true
  carries_properties property_update = true
  carries_properties _ = false

  -- JsonMsg::GetPropertiesList, whose `_json["properties"]` may write to the message.
  unfoldable pub get_properties_list : JsonMsg J → Result (JsonMsg J × List (ℤ × Text))
  unfolding read_update read_each
  get_properties_list msg =
      if carries_properties msg.type
      then (do
        (json, properties) ← or_throw json_error (member msg.json (codes "properties"))
        updates ← read_each read_update (size properties) 0 properties
        ok (record msg { json = json }, updates))
      else ok (msg, [])
