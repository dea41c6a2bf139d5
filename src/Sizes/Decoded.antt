-- ===== src/Sizes/Decoded.antt =====
-- Decoded JSON, as server.go takes it apart.
use registry_ui_go.Base.{
  Bool, Option, none, some, [], if◌then◌else◌, Text, ◌==◌, text_eq_instance, ℤ,
}

-- A float64: its value without the fraction, apart for values between 0 and 1, or none. JSON numbers arrive as float64, or as
-- json.Number: with an integer of 64 bits, with a float64 only, or with neither.
pub data Float : Type 0 where
  not_a_number plus_infinite minus_infinite below_one : Float
  finite : ℤ → Float

pub data Number : Type 0 where
  float : Float → Number
  integer : ℤ → Number
  rounded : Float → Number
  unreadable : Number

mutual
  pub data Json : Type 0 where
    null : Json
    boolean : Bool → Json
    number : Number → Json
    text : Text → Json
    array : Items → Json
    object : Fields → Json

  pub data Items : Type 0 where
    nil : Items
    cons : Json → Items → Items

  pub data Fields : Type 0 where
    end : Fields
    field : Text → Json → Fields → Fields

unfoldable pub member : Fields → Text → Json
member end name = null
member (field key value rest) name = if key == name then value else member rest name

-- `digest, _ := m["digest"].(string)`
abbrev pub as_text : Json → Text
as_text (text s) = s
as_text _ = []

abbrev pub as_object : Json → Option Fields
as_object (object fields) = some fields
as_object _ = none

-- `layers, ok := m["layers"].([]any)`, with no items where it is no array
abbrev pub as_items : Json → Items
as_items (array items) = items
as_items _ = nil
