-- ===== src/Common/TextMap.antt =====
-- `std::unordered_map` with strings as keys: an association list in which a key stands once.
use mathlib.Core.Path.{◌≡◌, refl, ◌∙◌}
use mathlib.Core.Bool.{true, false}
use mathlib.Core.Option.{Option, none, some}
use mathlib.Core.List.{List, [], ◌∷◌}
use native.Mathlib.Omega.{arith}
use playgroundjs_plugin.Common.Tests.{if◌then◌else◌}
use playgroundjs_plugin.Common.Text.{Bytes, bytes_eq, bytes_eq_iff, bytes_eq_refl}

module _ {ℓ} {V : Type ℓ} where
  -- `find`
  unfoldable pub find_text : Bytes → List (Bytes × V) → Option V
  find_text k [] = none
  find_text k (e ∷ rest) =
      let behind = find_text k rest in if bytes_eq k e.0 then some e.1 else behind

  -- `m[k] = v`
  unfoldable pub put_text : Bytes → V → List (Bytes × V) → List (Bytes × V)
  put_text k v [] = (k, v) ∷ []
  put_text k v (e ∷ rest) =
      let behind = put_text k v rest in if bytes_eq k e.0 then (e.0, v) ∷ rest else e ∷ behind

  -- `erase`
  unfoldable pub erase_text : Bytes → List (Bytes × V) → List (Bytes × V)
  erase_text k [] = []
  erase_text k (e ∷ rest) =
      let behind = erase_text k rest in if bytes_eq k e.0 then behind else e ∷ behind

  pub find_text_nil : (k : Bytes) → find_text k [] ≡ none
  unfolding find_text
  find_text_nil k = refl

  pub find_text-put :
      (j k : Bytes) (v : V) (m : List (Bytes × V))
      → find_text j (put_text k v m) ≡ (if bytes_eq j k then some v else find_text j m)
  unfolding find_text put_text
  find_text-put j k v [] = refl
  find_text-put j k v (e ∷ m) =
      ground
        (arith, find_text-put j k v m, bytes_eq_iff j k, bytes_eq_iff k e.0, bytes_eq_iff j e.0)

  pub find_text-erase :
      (j k : Bytes) (m : List (Bytes × V))
      → find_text j (erase_text k m) ≡ (if bytes_eq j k then none else find_text j m)
  unfolding find_text erase_text
  find_text-erase j k [] = ground arith
  find_text-erase j k (e ∷ m) =
      ground
        (arith, find_text-erase j k m, bytes_eq_iff j k, bytes_eq_iff k e.0, bytes_eq_iff j e.0)

  pub find_text-put_self :
      (k : Bytes) (v : V) (m : List (Bytes × V)) → find_text k (put_text k v m) ≡ some v
  find_text-put_self k v m = find_text-put k k v m ∙ rw (bytes_eq_refl k) refl

  pub find_text-put_same :
      (j k : Bytes) (v : V) (m : List (Bytes × V))
      → bytes_eq j k ≡ true
      → find_text j (put_text k v m) ≡ some v
  find_text-put_same j k v m h = find_text-put j k v m ∙ rw h refl

  pub find_text-put_ne :
      (j k : Bytes) (v : V) (m : List (Bytes × V))
      → bytes_eq j k ≡ false
      → find_text j (put_text k v m) ≡ find_text j m
  find_text-put_ne j k v m h = find_text-put j k v m ∙ rw h refl
