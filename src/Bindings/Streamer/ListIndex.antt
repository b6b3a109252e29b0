-- ===== src/Bindings/Streamer/ListIndex.antt =====
-- A tree of src/playground/bindings/modules/streamer/streamer.cc that keeps its values in a list, at
-- coordinates that are numbers: it shows that what is asked of the tree can hold.
use playgroundjs_plugin.Common.{
  List, ◌≡◌, Bool, elem, [], map, leb, false, true, ◌≢◌, ◌==◌, ◌∷◌, ◌||◌, length, ◌&&◌,
  if◌then◌else◌, arith, ◌<◌, false≢true, ◌-◌, zero, suc, refl, ◌+◌,
}
use Prim.Native.Nat.{ℕ, suc}
use playgroundjs_plugin.Bindings.Streamer.Index.{SpatialIndex, IndexLaws}

abbrev pub Value : Type 0
Value = (ℕ × ℕ) × ℕ

abbrev pub same_value : Value → Value → Bool
same_value v w = v.0.0 == w.0.0 && v.0.1 == w.0.1 && v.1 == w.1

abbrev pub remove_value : Value → List Value → List Value
remove_value v [] = []
remove_value v (w ∷ t) = let rest = remove_value v t in if same_value v w then t else w ∷ rest

abbrev pub holds_value : Value → List Value → Bool
holds_value v [] = false
holds_value v (w ∷ t) = same_value v w || holds_value v t

abbrev pub count_id : ℕ → List Value → ℕ
count_id id [] = 0
count_id id (w ∷ t) = if id == w.1 then suc (count_id id t) else count_id id t

abbrev pub is_inside : (ℕ × ℕ) × (ℕ × ℕ) → ℕ × ℕ → Bool
is_inside box p = leb box.0.0 p.0 && leb p.0 box.1.0 && leb box.0.1 p.1 && leb p.1 box.1.1

abbrev pub query_values : List Value → (ℕ × ℕ) × (ℕ × ℕ) → ℕ × ℕ → ℕ → List Value
query_values t box p zero = []
query_values [] box p (suc k) = []
query_values (w ∷ t) box p (suc k) =
    let here = query_values t box p k in
    let skipped = query_values t box p (suc k) in if is_inside box w.0 then w ∷ here else skipped

abbrev pub list_index : SpatialIndex ℕ
list_index = record {
  Tree = List Value;
  empty = [];
  insert = λ v t. v ∷ t;
  remove = remove_value;
  rebuild = λ t. t;
  size = length;
  query = query_values;
  minus = λ x d. x - d;
  plus = λ x d. x + d;
}

pub count-remove :
    (id : ℕ) (p : ℕ × ℕ) (t : List Value)
    → holds_value (p, id) t ≡ true
    → count_id id t ≡ suc (count_id id (remove_value (p, id) t))
count-remove id p [] h = absurd (false≢true h)
count-remove id p (w ∷ t) h = ground (arith, count-remove id p t)

pub count-remove_ne :
    (id other : ℕ) (p : ℕ × ℕ) (t : List Value)
    → id ≢ other
    → count_id id (remove_value (p, other) t) ≡ count_id id t
count-remove_ne id other p [] ne = refl
count-remove_ne id other p (w ∷ t) ne = ground (arith, count-remove_ne id other p t ne)

pub holds-remove_ne :
    (v w : Value) (t : List Value)
    → v.1 ≢ w.1
    → holds_value v t ≡ true
    → holds_value v (remove_value w t) ≡ true
holds-remove_ne v w [] ne h = h
holds-remove_ne v w (x ∷ t) ne h = ground (arith, holds-remove_ne v w t ne)

pub count-query :
    (id : ℕ) (t : List Value) (box : (ℕ × ℕ) × (ℕ × ℕ)) (p : ℕ × ℕ) (k : ℕ)
    → elem id (map (λ v. v.1) (query_values t box p k)) ≡ true
    → 0 < count_id id t
unfolding elem
count-query id t box p zero h = absurd (false≢true h)
count-query id [] box p (suc k) h = absurd (false≢true h)
count-query id (w ∷ t) box p (suc k) h =
    ground (arith, count-query id t box p k, count-query id t box p (suc k))

abbrev pub list_index-laws : IndexLaws list_index
list_index-laws = record {
  IsProper = λ p. Unit;
  Holds = λ v t. holds_value v t ≡ true;
  occurrences = count_id;
  occurrences-empty = λ id. refl;
  occurrences-insert = λ id p t. ground arith;
  occurrences-insert_ne = λ id other p t ne. ground arith;
  occurrences-remove = count-remove;
  occurrences-remove_ne = count-remove_ne;
  occurrences-rebuild = λ id t. refl;
  Holds-insert = λ id p t proper. ground arith;
  Holds-insert_ne = λ v w t h. ground arith;
  Holds-remove_ne = holds-remove_ne;
  Holds-rebuild = λ v t h. h;
  occurrences-query = count-query;
}
