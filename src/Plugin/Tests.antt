-- ===== src/Plugin/Tests.antt =====
-- Runs of the code of src/playground/plugin on concrete inputs, and the theorems at inputs that
-- meet their hypotheses.
use playgroundjs_plugin.Plugin.CallbackParser.Marks.{marked_by}
use playgroundjs_plugin.Plugin.FakeAmx.{
  read_cells, push_cells, new_fake_amx, push_cells-read, heap_cell_size,
}
use playgroundjs_plugin.Plugin.NativeFunctions.First.{offered_all, on_register_all-first}
use playgroundjs_plugin.Plugin.NativeFunctions.{
  find_function, NativeInfo, on_register_all, on_register, register_loop, store_function,
  function_exists, get_native_name,
}
use playgroundjs_plugin.Plugin.NativeParser.Table.{
  IsRegistry, entry_for, parse-IsRegistry, parse-table,
}
use playgroundjs_plugin.Plugin.CallbackParser.Files.{parse-each_line, IsSane, parse-IsSane}
use playgroundjs_plugin.Plugin.CallbackParser.Fuel.{argument_loop-total}
use playgroundjs_plugin.Plugin.CallbackParser.RoundTrip.{declared, parse_line-print}
use playgroundjs_plugin.Plugin.CallbackParser.Annotated.{
  IsAnnotation, unless_exclusive, parse_line-print_annotated,
}
use playgroundjs_plugin.Plugin.Lines.{each_line, split_lines, take_line, line_loop}
use playgroundjs_plugin.Plugin.NativeParser.{
  is_valid_character, all_valid, contains_name, register_all, Loaded, register, max_natives, invoke,
}
use playgroundjs_plugin.Plugin.CallbackParser.Arguments.{IsNamed}
use playgroundjs_plugin.Plugin.CallbackParser.Print.{IsName, print_declaration, print_annotated}
use playgroundjs_plugin.Base.StringPiece.{
  find_first_not_of, find_last_not_of, starts_with, substr, find_char, remove_prefix, ends_with,
  index_from, FirstAt, find_char-FirstAt, find_first_of,
}
use playgroundjs_plugin.Plugin.Callback.{
  CallbackArgumentType, type_int, type_string, blank_callback, Callback, type_float,
}
use playgroundjs_plugin.Plugin.Trim.{trim, Trims, trim-Trims, is_blank}
use playgroundjs_plugin.Plugin.CallbackParser.{
  parse_line, parse_argument, apply_annotations, apply_annotation, parse_annotations,
  parse_declaration, annotation_loop, argument_loop, argument_type, is_int, parse_arguments,
  argument_text, push_line,
}
use playgroundjs_plugin.Common.{
  ◌≡◌, String, Bytes, codes, bytes_eq, some, ◌∷◌, [], true, false, refl, ◌++◌, none, All, arith,
  ◌==◌, drop, ◌⊎◌, List, ◌≢◌, get_elem?, length, ◌≤◌, replicate, ◌+◌, ℕ, Option, length-replicate,
}

abbrev arg : String → CallbackArgumentType → Bytes × CallbackArgumentType
arg s t = (codes s, t)

one_line :
    parse_line (
      codes
        " [ Cancelable, X,ReturnOne ]  forward  OnMy  ( playerid , Float : health , name [ ] ) ; ")
    ≡ some (record {
      name = codes "OnMy";
      arguments = arg "playerid" type_int ∷ arg "health" type_int ∷ arg "name" type_string ∷ [];
      cancelable = true;
      deferred = false;
      return_value = 1;
    })
unfolding parse_line parse_annotations parse_declaration parse_arguments argument_text
    annotation_loop argument_loop argument_type is_int starts_with substr find_char remove_prefix
    ends_with trim find_first_not_of find_last_not_of parse_argument apply_annotations
    apply_annotation bytes_eq index_from
one_line = refl

abbrev on_two : Bytes
on_two =
    codes "[Cancelable] forward OnA(x);" ++ (b'\n' ∷ codes " [ReturnOne] forward OnB(Float:y, z[])")

trim-Trims_example : Trims (codes "  a b ") (trim (codes "  a b "))
trim-Trims_example = trim-Trims (codes "  a b ")

find_char-FirstAt_example :
    ((find_char (codes "a,b,c") b',' 2 ≡ none)
      × All (λ x. (x == b',') ≡ false) (drop 2 (codes "a,b,c")))
    ⊎ FirstAt (λ x. x == b',') 2 (drop 2 (codes "a,b,c")) (find_char (codes "a,b,c") b',' 2)
find_char-FirstAt_example = find_char-FirstAt (codes "a,b,c") b',' 2

parse-each_line_example :
    playgroundjs_plugin.Plugin.CallbackParser.parse on_two
    ≡ each_line push_line (split_lines on_two) []
parse-each_line_example = parse-each_line on_two

on_a : IsName (codes "OnA")
unfolding is_valid_character
on_a = record {
  first = b'O';
  others = codes "nA";
  from_first = refl;
  first_valid = refl;
  others_valid = (refl, (refl, tt));
}

named_x : IsName (codes "x")
unfolding is_valid_character
named_x = record {
  first = b'x';
  others = [];
  from_first = refl;
  first_valid = refl;
  others_valid = tt;
}

abbrev two_arguments : List (Bytes × CallbackArgumentType)
two_arguments = arg "x" type_int ∷ arg "OnA" type_string ∷ []

two_named : All IsNamed two_arguments
two_named = (named_x, (on_a, tt))

parse_line-print_example :
    playgroundjs_plugin.Plugin.CallbackParser.parse_line
      (print_declaration (codes "OnA") two_arguments)
    ≡ some (declared (codes "OnA") two_arguments blank_callback)
parse_line-print_example = parse_line-print (codes "OnA") two_arguments on_a two_named

abbrev cancelable_text : Bytes
cancelable_text = codes "Cancelable"

is_annotation : IsAnnotation cancelable_text
unfolding is_blank
is_annotation = record {
  solid = record {
    head = b'C';
    behind = codes "ancelable";
    front = codes "Cancelabl";
    last = b'e';
    from_head = refl;
    from_last = refl;
    head_solid = refl;
    last_solid = refl;
  };
  unbroken = (refl, (refl, (refl, (refl, (refl, (refl, (refl, (refl, (refl, (refl, tt))))))))));
}

parse_line-print_annotated_example :
    playgroundjs_plugin.Plugin.CallbackParser.parse_line
      (print_annotated cancelable_text [] (print_declaration (codes "OnA") two_arguments))
    ≡ unless_exclusive
        (marked_by (cancelable_text ∷ []) blank_callback)
        (declared (codes "OnA") two_arguments (marked_by (cancelable_text ∷ []) blank_callback))
parse_line-print_annotated_example =
    parse_line-print_annotated cancelable_text [] (codes "OnA") two_arguments is_annotation tt on_a
      two_named

argument_loop-total_example : argument_loop 9 (codes "a, b[]") blank_callback ≢ none
argument_loop-total_example = argument_loop-total 9 (codes "a, b[]") blank_callback (omega arith)

abbrev two_callbacks : List Callback
two_callbacks =
    record {
      name = codes "OnA";
      arguments = arg "x" type_int ∷ [];
      cancelable = true;
      deferred = false;
      return_value = 0;
    }
    ∷ record {
      name = codes "OnB";
      arguments = arg "y" type_float ∷ arg "z" type_string ∷ [];
      cancelable = false;
      deferred = false;
      return_value = 1;
    }
    ∷ []

two_parsed : playgroundjs_plugin.Plugin.CallbackParser.parse on_two ≡ some two_callbacks
unfolding playgroundjs_plugin.Plugin.CallbackParser.parse line_loop take_line push_line parse_line
    parse_annotations parse_declaration parse_arguments argument_text annotation_loop argument_loop
    argument_type is_int starts_with substr find_char remove_prefix ends_with trim find_first_not_of
    find_last_not_of parse_argument apply_annotations apply_annotation bytes_eq index_from
    find_first_of
two_parsed = refl

parse-IsSane_example : All IsSane two_callbacks
parse-IsSane_example = parse-IsSane on_two two_callbacks two_parsed

abbrev native_file : Bytes
native_file = codes "is_player" ++ (b'\n' ∷ codes " add_2 ")

abbrev native_names : List Bytes
native_names = codes "is_player" ∷ codes "add_2" ∷ []

abbrev native_loaded : Loaded
native_loaded = record {
  natives = native_names;
  table = register max_natives native_names (replicate (max_natives + 1) none);
}

native_parsed : playgroundjs_plugin.Plugin.NativeParser.parse native_file ≡ some native_loaded
unfolding playgroundjs_plugin.Plugin.NativeParser.parse register_all line_loop take_line
    playgroundjs_plugin.Plugin.NativeParser.parse_line trim find_first_of find_first_not_of
    find_last_not_of find_char substr bytes_eq all_valid contains_name starts_with index_from
native_parsed = refl

parse-IsRegistry_example : IsRegistry native_names × length native_names ≤ 255
parse-IsRegistry_example = parse-IsRegistry native_file native_loaded native_parsed

parse-table_example :
    (get_elem? native_loaded.table 1 ≡ some (entry_for 1 (invoke native_names 1)))
    × (length native_names ≤ 1 → get_elem? native_loaded.table 1 ≡ some none)
parse-table_example = parse-table native_file native_loaded 1 native_parsed (omega arith)

abbrev native_entry : String → ℕ → NativeInfo
native_entry name func = record { native_name = some (codes name); native_func = some func }

abbrev null_entry : NativeInfo
null_entry = record { native_name = none; native_func = none }

abbrev registrations : List (ℕ × Option (List NativeInfo))
registrations =
    (
      0,
      some (
          native_entry "GetPlayerName" 1
          ∷ native_entry "Kick" 2
          ∷ null_entry
          ∷ native_entry "Ban" 9
          ∷ []),
    )
    ∷ (5, none)
    ∷ (1, some (native_entry "Kick" 3 ∷ native_entry "Ban" 4 ∷ []))
    ∷ []

kick_registered : find_function (codes "Kick") (on_register_all registrations []) ≡ some 2
unfolding find_function on_register_all on_register register_loop store_function function_exists
    get_native_name bytes_eq
kick_registered = refl

on_register_all-first_example :
    find_function (codes "Kick") (on_register_all registrations [])
    ≡ find_function (codes "Kick") (offered_all registrations)
on_register_all-first_example = on_register_all-first (codes "Kick") registrations

push_cells-read_example :
    read_cells
      (push_cells (7 ∷ 8 ∷ 9 ∷ []) new_fake_amx).0
      (push_cells (7 ∷ 8 ∷ 9 ∷ []) new_fake_amx).1
    ≡ some 7 ∷ some 8 ∷ some 9 ∷ []
push_cells-read_example =
    push_cells-read (7 ∷ 8 ∷ 9 ∷ []) new_fake_amx
      (omega (arith, length-replicate {A = ℕ} heap_cell_size 0))
