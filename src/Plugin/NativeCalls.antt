-- ===== src/Plugin/NativeCalls.antt =====
-- `CallFunction` of src/playground/plugin/native_function_manager.cc, with what
-- src/playground/plugin/fake_amx.cc does with texts and arrays: a call of a function of the server.
-- The functions of the server, `amx_SetString` (the cells that it writes for a text) and
-- `amx_GetString` (the bytes that it gives for cells and a size) are parameters.
pub mod Filled
pub mod Restored
use playgroundjs_plugin.Common.{
  ℕ, List, Bytes, length, set, Option, if◌then◌else◌, suc, [], Bool, codes, take, ◌∷◌, false, not,
  ltb, bytes_eq, ◌*◌, ◌==◌, ◌/◌, ◌++◌, ◌+◌, none, ◌||◌, replicate, some, get_or, zero, drop, ◌-◌,
}
use playgroundjs_plugin.Plugin.CallbackManager.{PublicArgument, format_at}
use playgroundjs_plugin.Plugin.NativeFunctions.{find_function}
use playgroundjs_plugin.Plugin.FakeAmx.{FakeAmx, allocate, push_cell, read_cell, restore}
use playgroundjs_plugin.Plugin.Values.{minus_one}
use playgroundjs_plugin.Base.StringPiece.{starts_with}

-- `NativeFunctionManager`
pub record NativeFunctionManager : Type 0 where
  pub native_functions : List (Bytes × ℕ)
  pub fake_amx : FakeAmx
  pub params : List ℕ

-- Cells written from an index of the heap on.
unfoldable pub write_cells : ℕ → List ℕ → List ℕ → List ℕ
write_cells index [] heap = heap
write_cells index (cell ∷ cells) heap = write_cells (index + 1) cells (set heap index cell)

-- `PushArray` of so many cells: the address, and the heap.
unfoldable pub push_array : List ℕ → FakeAmx → ℕ × FakeAmx
push_array cells amx =
    let allocated = allocate (length cells) amx in
    (amx.hea, record allocated { amx_heap = write_cells (amx.hea / 4) cells allocated.amx_heap })

-- `kDynamicEntityFunctions` and `kDynamicAreaFunctions`
abbrev dynamic_entity_functions : List Bytes
dynamic_entity_functions =
    codes "CreateDynamic3DTextLabelEx"
    ∷ codes "CreateDynamicActorEx"
    ∷ codes "CreateDynamicCPEx"
    ∷ codes "CreateDynamicMapIconEx"
    ∷ codes "CreateDynamicObjectEx"
    ∷ codes "CreateDynamicPickupEx"
    ∷ codes "CreateDynamicRaceCPEx"
    ∷ []

abbrev dynamic_area_functions : List Bytes
dynamic_area_functions =
    codes "CreateDynamicCircleEx"
    ∷ codes "CreateDynamicCubeEx"
    ∷ codes "CreateDynamicCuboidEx"
    ∷ codes "CreateDynamicCylinderEx"
    ∷ codes "CreateDynamicRectangleEx"
    ∷ codes "CreateDynamicSphereEx"
    ∷ []

unfoldable pub is_among : Bytes → List Bytes → Bool
is_among name [] = false
is_among name (other ∷ rest) = bytes_eq name other || is_among name rest

-- `GetArraySizeOffsetForFunctionName`
unfoldable pub array_size_offset : Bytes → ℕ
array_size_offset name =
    if not (starts_with name (codes "CreateDynamic"))
    then 1
    else if is_among name dynamic_entity_functions
    then 5
    else if is_among name dynamic_area_functions
    then 4
    else 1

-- `params_.resize`
abbrev pub resize_params : ℕ → List ℕ → List ℕ
resize_params size params = take size params ++ replicate (size - length params) 0

-- The state of the loop over the parameters.
pub record CallState : Type 0 where
  pub amx : FakeAmx
  pub values : List ℕ
  pub offset : ℕ

-- What a round of the loop, or all of it, comes to: the next position and state, a refused call, or
-- the end of the process at a check.
pub data Progress : Type 0 where
  goes_on : (position : ℕ) (state : CallState) → Progress
  refused : (state : CallState) → Progress
  check_failed : Progress

-- What is read back for the parameter at a position.
pub data ReadBack : Type 0 where
  cell_read : (position : ℕ) (value : Option ℕ) → ReadBack
  text_read : (position : ℕ) (text : Bytes) → ReadBack

-- The value for the parameter at the position `i`.
abbrev put_param : ℕ → ℕ → CallState → CallState
put_param i value state = record state { values = set state.values (suc i) value }

abbrev is_polygon : Bytes → Bool
is_polygon name = bytes_eq name (codes "CreateDynamicPolygonEx")

module _ (function : ℕ → List ℕ → FakeAmx → ℕ × FakeAmx) (set_string : Bytes → List ℕ)
    (get_string : List ℕ → ℕ → Bytes) where
  -- `PushString`
  unfoldable pub push_string : Bytes → FakeAmx → ℕ × FakeAmx
  push_string text amx =
      let allocated = allocate (length text + 1) amx in
      (
        amx.hea,
        record allocated {
          amx_heap = write_cells (amx.hea / 4) (set_string text) allocated.amx_heap;
        },
      )

  module _ (name format : Bytes) (arguments : ℕ → PublicArgument) where
    -- A parameter that is pushed: its address is the value.
    unfoldable pub put_pushed : ℕ → ℕ × FakeAmx → CallState → CallState
    put_pushed i pushed state = put_param i pushed.0 (record state { amx = pushed.1 })

    -- The case of an array, with the offset of its size.
    unfoldable pub push_array_param : ℕ → ℕ → CallState → Progress
    push_array_param i offset state =
        let state = record state { offset = offset } in
        if not (format_at format (i + offset) == 105)
        then refused state
        else (let size = (arguments (i + offset)).as_cell in
            if size == 0
            then check_failed
            else (let next =
                  put_pushed i (push_array ((arguments i).as_cells size) state.amx) state in
                if offset == 1
                then goes_on (suc (suc i)) (put_param (suc i) size next)
                else goes_on (suc i) next))

    -- One round of the loop.
    unfoldable pub push_native_param : ℕ → CallState → Progress
    push_native_param i state =
        let c = format_at format i in
        if c == 105 || c == 102
        then goes_on (suc i) (put_param i (arguments i).as_cell state)
        else if c == 114
        then goes_on (suc i) (put_pushed i (push_cell (arguments i).as_cell state.amx) state)
        else if c == 115
        then goes_on (suc i) (put_pushed i (push_string (arguments i).as_text state.amx) state)
        else if c == 97
        then push_array_param i
            (if is_polygon name then (if i == 0 then 3 else 4) else state.offset) state
        else goes_on (suc i) state

    -- The loop from the position `i` on, on fuel.
    unfoldable pub push_native_params : ℕ → ℕ → CallState → Progress
    push_native_params zero i state = goes_on i state
    push_native_params (suc fuel) i state =
        if ltb i (length format)
        then elim (push_native_param i state) [
          | goes_on next behind ↦ push_native_params fuel next behind
          | refused behind ↦ refused behind
          | check_failed ↦ check_failed
        ]
        else goes_on i state

    -- One round of the loop that reads back.
    unfoldable pub read_back : ℕ → CallState → List ReadBack
    read_back i state =
        if format_at format i == 114
        then cell_read i (read_cell (get_or state.values (suc i) 0) state.amx) ∷ []
        else if format_at format i == 97
        then (let cells = drop (get_or state.values (suc i) 0 / 4) state.amx.amx_heap in
            text_read i (get_string cells (arguments (i + state.offset)).as_cell) ∷ [])
        else []

    -- The loop that reads back, so many parameters from the position `i` on.
    unfoldable pub read_back_all : ℕ → ℕ → CallState → List ReadBack
    read_back_all zero i state = []
    read_back_all (suc left) i state = read_back i state ++ read_back_all left (suc i) state

    -- The parameters before the loop.
    abbrev pub first_state : NativeFunctionManager → CallState
    first_state m = record {
      amx = m.fake_amx;
      values = set (resize_params (suc (length format)) m.params) 0 (length format * 4);
      offset = array_size_offset name;
    }

    -- What is left of a call: the heap pointer goes back.
    abbrev left_behind : NativeFunctionManager → CallState → NativeFunctionManager
    left_behind m state = record m {
      fake_amx = restore m.fake_amx.hea state.amx;
      params = state.values;
    }

    -- What follows the loop over the parameters.
    unfoldable pub finish_call :
        ℕ → NativeFunctionManager → Progress → Option ((ℕ × List ReadBack) × NativeFunctionManager)
    finish_call func m check_failed = none
    finish_call func m (refused state) = some ((minus_one, []), left_behind m state)
    finish_call func m (goes_on position state) =
        let returned = function func state.values state.amx in
        let after : CallState = record state { amx = returned.1 } in
        some ((returned.0, read_back_all (length format) 0 after), left_behind m after)

    -- `CallFunction` for a function that was found. `none` where the process ends.
    unfoldable pub call_found :
        ℕ → NativeFunctionManager → Option ((ℕ × List ReadBack) × NativeFunctionManager)
    call_found func m =
        let start = first_state m in
        if length format == 0
        then (let returned = function func start.values start.amx in
            some ((returned.0, []), record m { fake_amx = returned.1; params = start.values }))
        else finish_call func m (push_native_params (length format) 0 start)

    -- `CallFunction`
    unfoldable pub call_native_function :
        NativeFunctionManager → Option ((ℕ × List ReadBack) × NativeFunctionManager)
    call_native_function m = elim (find_function name m.native_functions) [
      | none ↦ some ((minus_one, []), m)
      | some func ↦ call_found func m
    ]
