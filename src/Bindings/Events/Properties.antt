-- ===== src/Bindings/Events/Properties.antt =====
-- The properties of the events that scripts see, from the stack of the server to the object.
use playgroundjs_plugin.Common.{ℕ}
use playgroundjs_plugin.Plugin.Callback.{
  Callback, CallbackArgumentType, type_int, type_float, type_string,
}
use playgroundjs_plugin.Plugin.Amx.{Amx, read_string_from_amx}
use playgroundjs_plugin.Bindings.Events.{Property, integer_number, float_number, text}

-- What a script is to see of a cell of the stack.
abbrev pub seen_property : Amx → CallbackArgumentType → ℕ → Property
seen_property amx type_int place = integer_number (amx.stack place)
seen_property amx type_float place = float_number (amx.stack place)
seen_property amx type_string place = text (read_string_from_amx amx (amx.stack place))
