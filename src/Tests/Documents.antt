-- ===== src/Tests/Documents.antt =====
-- Documents of values, as the JSON library would give them.
use perf_monitor.Prelude.{Bool, true, false, List, [], ◌∷◌, Option, none, some, if◌then◌else◌}
use perf_monitor.Prelude.Int.{ℤ}
use perf_monitor.Text.{Bytes, str_eq}
use perf_monitor.Worker.Config.Load.{Json}

mutual
  pub data Value : Type 0 where
    text : Bytes → Value
    number : ℤ → Value
    array : Items → Value
    object : Fields → Value

  pub data Items : Type 0 where
    no_item : Items
    item : Value → Items → Items

  pub data Fields : Type 0 where
    no_field : Fields
    field : Bytes → Value → Fields → Fields

abbrev pub has_field : Fields → Bytes → Bool
has_field no_field key = false
has_field (field k v rest) key = if str_eq k key then true else has_field rest key

abbrev pub field_at : Fields → Bytes → Value
field_at no_field key = text []
field_at (field k v rest) key = if str_eq k key then v else field_at rest key

abbrev pub contains : Value → Bytes → Bool
contains (object fields) key = has_field fields key
contains (text s) key = false
contains (number n) key = false
contains (array items) key = false

abbrev pub element : Value → Bytes → Value
element (object fields) key = field_at fields key
element (text s) key = text []
element (number n) key = text []
element (array items) key = text []

abbrev pub is_array : Value → Bool
is_array (array items) = true
is_array (text s) = false
is_array (number n) = false
is_array (object fields) = false

abbrev pub list_of : Items → List Value
list_of no_item = []
list_of (item v rest) = v ∷ list_of rest

abbrev pub items_of : Value → List Value
items_of (array items) = list_of items
items_of (text s) = []
items_of (number n) = []
items_of (object fields) = []

abbrev pub string_of : Value → Option Bytes
string_of (text s) = some s
string_of (number n) = none
string_of (array items) = none
string_of (object fields) = none

abbrev pub int_of : Value → Option ℤ
int_of (number n) = some n
int_of (text s) = none
int_of (array items) = none
int_of (object fields) = none

instance abbrev pub value_json : Json Value
value_json = record {
  contains = contains;
  element = element;
  is_array = is_array;
  items = items_of;
  get_string = string_of;
  get_int = int_of;
}
