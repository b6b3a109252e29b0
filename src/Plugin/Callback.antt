-- ===== src/Plugin/Callback.antt =====
-- src/playground/plugin/callback.h: what is known of a callback of the server.
use playgroundjs_plugin.Common.{ℕ, Bool, false, List, [], Bytes}

-- `CallbackArgumentType`
pub data CallbackArgumentType : Type 0 where
  type_int type_float type_string : CallbackArgumentType

-- `struct Callback`
pub record Callback : Type 0 where
  pub name : Bytes
  pub arguments : List (Bytes × CallbackArgumentType)
  pub cancelable : Bool
  pub deferred : Bool
  pub return_value : ℕ

-- A `Callback` as its default constructor makes it.
abbrev pub blank_callback : Callback
blank_callback = record {
  name = [];
  arguments = [];
  cancelable = false;
  deferred = false;
  return_value = 0;
}
