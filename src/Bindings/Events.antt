-- ===== src/Bindings/Events.antt =====
-- src/playground/bindings/event.cc: the events that scripts see. An object of v8 is a record here,
-- with its properties in the order in which they are set.
pub mod TypeCache
pub mod Properties
use playgroundjs_plugin.Common.{
  ℕ, [], Bool, Bytes, List, none, some, false, Option, map, if◌then◌else◌, ◌∷◌, find_text, ◌++◌,
  true, codes, bytes_eq, leb, put_text, ◌&&◌, ◌+◌,
}
use playgroundjs_plugin.Plugin.Callback.{
  Callback, CallbackArgumentType, type_int, type_float, type_string,
}
use playgroundjs_plugin.Plugin.Values.{Arguments, get_integer, get_float, get_string, get_array}
use playgroundjs_plugin.Base.StringPiece.{starts_with, remove_prefix}

-- `::tolower` in the C locale.
abbrev pub to_lower : ℕ → ℕ
to_lower c = if leb 65 c && leb c 90 then c + 32 else c

-- The text behind "On", with which callbacks begin.
unfoldable pub without_on : Bytes → Bytes
without_on callback =
    if starts_with callback (codes "On") then remove_prefix callback 2 else callback

-- `CreateEventType`: "playerconnect" for "OnPlayerConnect".
unfoldable pub create_event_type : Bytes → Bytes
create_event_type callback = map to_lower (without_on callback)

-- `CreateEventInterfaceName`: "PlayerConnectEvent" for "OnPlayerConnect".
unfoldable pub create_event_interface_name : Bytes → Bytes
create_event_interface_name callback = without_on callback ++ codes "Event"

-- `ToEventType` with `g_callback_type_map_`. `operator[]` makes an entry where there is none.
unfoldable pub to_event_type : Bytes → List (Bytes × Bytes) → Bytes × List (Bytes × Bytes)
to_event_type callback cache = elim (find_text callback cache) [
  | some type ↦ (type, cache)
  | none ↦
      (let filled = put_text callback (create_event_type callback) cache in
        elim (find_text callback filled) [
          | some type ↦ (type, filled)
          | none ↦ ([], put_text callback [] filled)
        ])
]

-- `Event`: its callback and `event_type_`.
pub record Event : Type 0 where
  pub callback : Callback
  pub event_type : Bytes

-- `Event::Create`
abbrev pub create_event : Callback → Event
create_event callback = record {
  callback = callback;
  event_type = create_event_interface_name callback.name;
}

-- The value of a property: numbers of the two kinds are the bits of a cell.
pub data Property : Type 0 where
  undefined : Property
  integer_number float_number : (bits : ℕ) → Property
  text : (value : Bytes) → Property
  numbers : (values : List ℕ) → Property

-- An instance of an interface. `default_prevented` is its internal field, `none` where the
-- instances have no such field, and `some none` before it is set.
pub record EventInstance : Type 0 where
  pub interface : Bytes
  pub properties : List (Bytes × Property)
  pub default_prevented : Option (Option Bool)

-- `InstallPrototype`: the template of which instances are made.
unfoldable pub declare_arguments :
    List (Bytes × CallbackArgumentType) → List (Bytes × Property) → List (Bytes × Property)
declare_arguments [] properties = properties
declare_arguments (argument ∷ arguments) properties =
    declare_arguments arguments (put_text argument.0 undefined properties)

unfoldable pub install_prototype : Event → EventInstance
install_prototype event = record {
  interface = event.event_type;
  properties = declare_arguments event.callback.arguments [];
  default_prevented = if event.callback.cancelable then some none else none;
}

-- The value that `NewInstance` gives to the property of an argument.
unfoldable pub property_of : Event → Bytes → CallbackArgumentType → Arguments → Property
property_of event name type values =
    if bytes_eq event.event_type (codes "CAC_OnMemoryReadEvent") && bytes_eq name (codes "content")
    then numbers (get_array name values)
    else elim type [
      | type_int ↦ integer_number (get_integer name values)
      | type_float ↦ float_number (get_float name values)
      | type_string ↦ text (get_string name values)
    ]

-- The loop of `NewInstance`.
unfoldable pub set_properties :
    Event
    → Arguments
    → List (Bytes × CallbackArgumentType)
    → List (Bytes × Property)
    → List (Bytes × Property)
set_properties event values [] properties = properties
set_properties event values (argument ∷ arguments) properties =
    set_properties event values arguments
      (put_text argument.0 (property_of event argument.0 argument.1 values) properties)

-- `NewInstance`
unfoldable pub new_instance : Event → Arguments → EventInstance
new_instance event values =
    let instance = install_prototype event in
    record instance {
      properties = set_properties event values event.callback.arguments instance.properties;
    }

-- `PreventDefaultCallback`
unfoldable pub prevent_default : EventInstance → EventInstance
prevent_default instance = elim instance.default_prevented [
  | none ↦ instance
  | some flag ↦ record instance { default_prevented = some (some true) }
]

-- `DefaultPrevented`
unfoldable pub is_default_prevented : EventInstance → Bool
is_default_prevented instance = elim instance.default_prevented [
  | none ↦ false
  | some none ↦ false
  | some (some flag) ↦ flag
]
