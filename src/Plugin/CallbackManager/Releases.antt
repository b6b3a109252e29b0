-- ===== src/Plugin/CallbackManager/Releases.antt =====
-- The pushes among the calls of the AMX, and the memory that they get.

use playgroundjs_plugin.Plugin.CallbackManager.{
  AmxCall, releases, pushed_cell, pushed_string, released, pushed_array, executed, ignore_begins,
  ignore_ends,
}
use playgroundjs_plugin.Common.{
  ℕ, List, ◌∷◌, Bool, [], ◌≡◌, ◌++◌, suc, true, ◌+◌, arith, ap, ◌&&◌, false, zero, refl, ◌∙◌,
}

abbrev pub is_push : AmxCall → Bool
is_push (pushed_cell value) = true
is_push (pushed_string text) = true
is_push (pushed_array cells) = true
is_push _ = false

abbrev pub all_pushes : List AmxCall → Bool
all_pushes [] = true
all_pushes (call ∷ calls) = is_push call && all_pushes calls

-- How many texts and arrays are pushed, each of which gets memory of the AMX.
abbrev pub count_allocated : List AmxCall → ℕ
count_allocated [] = 0
count_allocated (pushed_string text ∷ calls) = suc (count_allocated calls)
count_allocated (pushed_array cells ∷ calls) = suc (count_allocated calls)
count_allocated (_ ∷ calls) = count_allocated calls

-- So many numbers in order, each released once.
abbrev pub released_from : ℕ → ℕ → List AmxCall
released_from number zero = []
released_from number (suc count) = released number ∷ released_from (number + 1) count

pub releases-count :
    (number : ℕ) (calls : List AmxCall)
    → releases number calls ≡ released_from number (count_allocated calls)
unfolding releases
releases-count number [] = refl
releases-count number (pushed_cell value ∷ calls) = releases-count number calls
releases-count number (pushed_string text ∷ calls) =
    ap (λ l. released number ∷ l) (releases-count (number + 1) calls)
releases-count number (pushed_array cells ∷ calls) =
    ap (λ l. released number ∷ l) (releases-count (number + 1) calls)
releases-count number (executed index ∷ calls) = releases-count number calls
releases-count number (released other ∷ calls) = releases-count number calls
releases-count number (ignore_begins ∷ calls) = releases-count number calls
releases-count number (ignore_ends ∷ calls) = releases-count number calls

pub count_allocated-append :
    (first second : List AmxCall)
    → count_allocated (first ++ second) ≡ count_allocated first + count_allocated second
count_allocated-append [] second = omega arith
count_allocated-append (pushed_cell value ∷ calls) second = count_allocated-append calls second
count_allocated-append (pushed_string text ∷ calls) second =
    omega (arith, count_allocated-append calls second)
count_allocated-append (pushed_array cells ∷ calls) second =
    omega (arith, count_allocated-append calls second)
count_allocated-append (executed index ∷ calls) second = count_allocated-append calls second
count_allocated-append (released other ∷ calls) second = count_allocated-append calls second
count_allocated-append (ignore_begins ∷ calls) second = count_allocated-append calls second
count_allocated-append (ignore_ends ∷ calls) second = count_allocated-append calls second

pub count_executed :
    (pushes : List AmxCall) (index : ℕ)
    → count_allocated (pushes ++ (ignore_begins ∷ executed index ∷ [])) ≡ count_allocated pushes
count_executed pushes index =
    count_allocated-append pushes (ignore_begins ∷ executed index ∷ []) ∙ omega arith
