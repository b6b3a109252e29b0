-- ===== src/Plugin/CallTests.antt =====
-- Calls between the server and the plugin on concrete inputs, and the theorems at inputs that meet
-- their hypotheses.
use playgroundjs_plugin.Plugin.CallbackManager.Released.{IsReleased, call_public-IsReleased}
use playgroundjs_plugin.Plugin.CallbackParser.{find}
use playgroundjs_plugin.Plugin.Callback.{Callback, type_int, type_string}
use playgroundjs_plugin.Plugin.Amx.{Amx}
use playgroundjs_plugin.Common.{
  ℕ, codes, find_text, List, ◌∷◌, some, ◌≡◌, find_id, false, if◌then◌else◌, Bytes, none, replicate,
  true, arith, put_id, bytes_eq, [], ◌==◌, Bool, take, ◌++◌, suc, refl, zero, ap, sym, some_inj,
  ◌∙◌,
}
use playgroundjs_plugin.Plugin.CallbackHook.{
  CallbackHook, on_execute, is_gamemode, execute_public, do_intercept, exec_public, answered,
  new_hook, load_publics, load_public, on_gamemode_loaded, install_gamemode,
}
use playgroundjs_plugin.Plugin.CallbackHook.Interception.{IsIntercepted, on_execute-answered}
use playgroundjs_plugin.Plugin.CallbackManager.{
  CallbackManager, Gamemode, PublicArgument, call_public, push_params, push_param, has_reference,
  invoke_public, releases, call_gamemode, callback_index, pushed_cell, released, ignore_ends,
}
use playgroundjs_plugin.Plugin.CallbackManager.IndexCache.{
  IsIndexCache, call_public-uncached, uncached,
}
use playgroundjs_plugin.Plugin.CallbackManager.Marshalling.{
  PublicParameter, cell_parameter, array_parameter, string_parameter, asked, call_public-asked,
}
use playgroundjs_plugin.Plugin.Controller.{new_controller, output, is_player_minimized}
use playgroundjs_plugin.Plugin.Controller.Output.{IsPlain, IsPrinted, output-IsPrinted}
use playgroundjs_plugin.Plugin.Controller.Minimized.{updated, is_idle, is_player_minimized-idle}
use playgroundjs_plugin.Plugin.Values.{Arguments}

-- A server that calls OnPlayerText with player 7 and a text at address 42.
abbrev server_amx : Amx
server_amx = record {
  identity = 1;
  paramcount = 2;
  stack = λ place. if place == 0 then 7 else 42;
  memory = λ address. 0;
  get_addr = λ address. some address;
  str_len = λ address. some 2;
  get_amx_string = λ address size. some (codes "hi");
  num_publics = some 1;
  get_public = λ index. some (codes "OnPlayerText");
}

abbrev text_callback : Callback
text_callback = record {
  name = codes "OnPlayerText";
  arguments = (codes "playerid", type_int) ∷ (codes "text", type_string) ∷ [];
  cancelable = true;
  deferred = false;
  return_value = 1;
}

abbrev loaded_hook : CallbackHook
loaded_hook = on_gamemode_loaded server_amx (new_hook (text_callback ∷ []))

abbrev handles_all : Bytes → Arguments → Bool → Bool
handles_all name arguments deferred = true

answers : (on_execute handles_all server_amx true (exec_public 0) loaded_hook).0 ≡ answered (some 1)
unfolding on_execute on_gamemode_loaded install_gamemode load_publics load_public execute_public
    do_intercept is_gamemode find_id put_id find bytes_eq
answers = refl

on_execute-answered_example :
    (callback : Callback) × IsIntercepted handles_all server_amx
      (exec_public 0)
      loaded_hook
      callback
    × (some 1 ≡ (if true then some callback.return_value else none))
on_execute-answered_example =
    on_execute-answered handles_all server_amx true (exec_public 0) loaded_hook (some 1) answers

-- A gamemode with one public function, which returns 5.
abbrev gamemode : Gamemode
gamemode = record {
  find_public = λ name. if bytes_eq name (codes "OnMessage") then some 3 else none;
  exec = λ calls. some 5;
}

abbrev manager : CallbackManager
manager = record {
  gamemode = some gamemode;
  callback_index_cache = (codes "OnMessage", 3) ∷ [];
  looked_up = [];
}

-- A player, an array of two cells and its size, and a text.
abbrev message_arguments : ℕ → PublicArgument
message_arguments param = record {
  as_cell = if param == 0 then 7 else 2;
  as_text = codes "hi";
  as_cells = λ size. take size (8 ∷ 9 ∷ 10 ∷ []);
}

abbrev message_parameters : List PublicParameter
message_parameters =
    cell_parameter 7 ∷ array_parameter (8 ∷ 9 ∷ []) ∷ string_parameter (codes "hi") ∷ []

manager-IsIndexCache : IsIndexCache manager
unfolding find_text
manager-IsIndexCache g e name index found = ap (λ f. f.find_public name) (sym (some_inj e)) ∙ found

call_public-uncached_example :
    ((call_public (codes "OnMessage") (codes "iais") message_arguments manager).0
      ≡ (call_public (codes "OnMessage") (codes "iais") message_arguments (uncached manager)).0)
    × IsIndexCache (call_public (codes "OnMessage") (codes "iais") message_arguments manager).1
call_public-uncached_example =
    call_public-uncached (codes "OnMessage") (codes "iais") message_arguments manager
      manager-IsIndexCache

call_public-IsReleased_example :
    IsReleased manager
      (codes "OnMessage")
      (codes "iax")
      (call_public (codes "OnMessage") (codes "iax") message_arguments manager).0
call_public-IsReleased_example =
    call_public-IsReleased (codes "OnMessage") (codes "iax") message_arguments manager
      manager-IsIndexCache

call_public-asked_example :
    (call_public (codes "OnMessage") (codes "iais") message_arguments manager).0 ≡ (
      elim (gamemode.exec (asked 3 message_parameters)) [ none ↦ 4294967295 | some value ↦ value ],
      asked 3 message_parameters ++ (ignore_ends ∷ released 0 ∷ released 1 ∷ []),
    )
unfolding has_reference find_text bytes_eq
call_public-asked_example =
    call_public-asked gamemode (codes "OnMessage") (codes "iais") message_arguments manager 3
      message_parameters refl manager-IsIndexCache refl refl refl
      (refl, refl, (refl, refl, refl, (refl, refl, tt))) refl

-- A text of 3000 bytes is printed in two pieces.
abbrev long_text : Bytes
long_text = replicate 3000 97

IsPlain-replicate : (n : ℕ) → IsPlain (replicate n 97)
IsPlain-replicate zero = tt
IsPlain-replicate (suc n) = ((λ e. omega arith), IsPlain-replicate n)

output-IsPrinted_example : IsPrinted long_text new_controller (output long_text new_controller)
output-IsPrinted_example = output-IsPrinted long_text new_controller (IsPlain-replicate 3000)

-- Player 4 was last updated at 2500, player 5 at 1200.
abbrev some_updates : List (ℕ × ℕ)
some_updates = (4, 2500) ∷ (5, 1200) ∷ (4, 1000) ∷ []

is_player_minimized-idle_example :
    is_player_minimized 5 2600 (updated some_updates new_controller) ≡ is_idle 5 2600 some_updates
is_player_minimized-idle_example =
    is_player_minimized-idle 5 2600 some_updates new_controller refl
      ((omega arith, (omega arith, tt)), ((omega arith, tt), (tt, tt)))

-- A parameter of a kind that is not known stops a call when those behind it are pushed, and they
-- stay on the stack of the AMX.
left_behind :
    (call_public (codes "OnMessage") (codes "xi") message_arguments manager).0
    ≡ (4294967295, pushed_cell 2 ∷ [])
unfolding call_public call_gamemode callback_index invoke_public push_params push_param
    has_reference releases find_text bytes_eq
left_behind = refl
