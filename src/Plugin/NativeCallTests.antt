-- ===== src/Plugin/NativeCallTests.antt =====
-- Calls of functions of the server on concrete inputs, and the theorems at inputs that meet their
-- hypotheses.
use playgroundjs_plugin.Base.StringPiece.{starts_with}
use playgroundjs_plugin.Plugin.NativeFunctions.{find_function}
use playgroundjs_plugin.Common.{
  ℕ, Bytes, codes, List, get_or, ◌+◌, take, ◌∷◌, ◌++◌, refl, [], set, replicate, bytes_eq, ◌≡◌,
  some,
}
use playgroundjs_plugin.Plugin.NativeCalls.{
  NativeFunctionManager, call_found, call_native_function, finish_call, push_native_params,
  push_native_param, push_array_param, put_pushed, read_back_all, read_back, array_size_offset,
  is_among, cell_read,
}
use playgroundjs_plugin.Plugin.NativeCalls.Restored.{
  NativeCall, call_every, IsRestored, call_every-IsRestored,
}
use playgroundjs_plugin.Plugin.FakeAmx.{FakeAmx, push_cell, allocate, restore, read_cell}
use playgroundjs_plugin.Plugin.CallbackManager.{PublicArgument}

-- A function that writes 99 to the first cell of the heap and returns its second parameter.
abbrev writes_99 : ℕ → List ℕ → FakeAmx → ℕ × FakeAmx
writes_99 func values amx = (get_or values 1 0, record amx { amx_heap = set amx.amx_heap 0 99 })

abbrev one_per_cell : Bytes → List ℕ
one_per_cell text = text ++ (0 ∷ [])

abbrev first_bytes : List ℕ → ℕ → Bytes
first_bytes cells size = take size cells

abbrev small_manager : NativeFunctionManager
small_manager = record {
  native_functions = (codes "GetPlayerPos", 3) ∷ [];
  fake_amx = record { amx_heap = replicate 16 0; hea = 0 };
  params = [];
}

abbrev position_arguments : ℕ → PublicArgument
position_arguments param = record {
  as_cell = param + 5;
  as_text = codes "hi";
  as_cells = λ size. replicate size 8;
}

-- A player, and a reference whose value comes back.
position_read :
    call_native_function writes_99 one_per_cell first_bytes
      (codes "GetPlayerPos")
      (codes "ir")
      position_arguments
      small_manager
    ≡ some (
      (5, cell_read 1 (some 99) ∷ []),
      record {
        native_functions = (codes "GetPlayerPos", 3) ∷ [];
        fake_amx = record { amx_heap = 99 ∷ replicate 15 0; hea = 0 };
        params = 8 ∷ 5 ∷ 0 ∷ [];
      },
    )
unfolding call_native_function call_found finish_call find_function bytes_eq push_native_params
    push_native_param put_pushed push_cell allocate restore read_back_all read_back read_cell
    array_size_offset is_among starts_with
position_read = refl

abbrev two_calls : List NativeCall
two_calls =
    (codes "GetPlayerPos", codes "ir", position_arguments)
    ∷ (codes "GetPlayerPos", codes "ra", position_arguments)
    ∷ []

abbrev manager_after : NativeFunctionManager
manager_after = record {
  native_functions = (codes "GetPlayerPos", 3) ∷ [];
  fake_amx = record { amx_heap = 5 ∷ replicate 15 0; hea = 0 };
  params = 8 ∷ 0 ∷ 0 ∷ [];
}

two_called :
    call_every writes_99 one_per_cell first_bytes two_calls small_manager ≡ some manager_after
unfolding call_native_function call_found finish_call find_function bytes_eq push_native_params
    push_native_param push_array_param put_pushed push_cell allocate restore read_back_all read_back
    read_cell array_size_offset is_among starts_with
two_called = refl

call_every-IsRestored_example :
    IsRestored writes_99 one_per_cell first_bytes small_manager manager_after
call_every-IsRestored_example =
    call_every-IsRestored writes_99 one_per_cell first_bytes (λ func values amx. refl) two_calls
      small_manager manager_after two_called
