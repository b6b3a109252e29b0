-- ===== src/Bindings/Streamer/Index.antt =====
-- What src/playground/bindings/modules/streamer/streamer.cc uses of `boost::geometry`: an R*-tree
-- of points with ids, and the arithmetic of coordinates.
use playgroundjs_plugin.Common.{ℕ, List, ◌≡◌, suc, ◌≢◌, elem, map, true, ◌<◌}

pub record SpatialIndex (Coordinate : Type 0) : Type 1 where
  pub Tree : Type 0
  pub empty : Tree
  pub insert : (Coordinate × Coordinate) × ℕ → Tree → Tree
  pub remove : (Coordinate × Coordinate) × ℕ → Tree → Tree
  -- A tree packed anew from the values of another.
  pub rebuild : Tree → Tree
  pub size : Tree → ℕ
  -- The values in a box that are nearest to a point, at most so many, as an iterator gives them.
  pub query :
      Tree
      → (Coordinate × Coordinate) × (Coordinate × Coordinate)
      → Coordinate × Coordinate
      → ℕ
      → List ((Coordinate × Coordinate) × ℕ)
  pub minus : Coordinate → ℕ → Coordinate
  pub plus : Coordinate → ℕ → Coordinate

-- What the documentation of the tree promises: it is a collection that keeps the values inserted,
-- duplicates included, until an equal value is removed. `IsProper` are the points that are equal to
-- themselves, which those with a NaN are not.
pub record IndexLaws {Coordinate : Type 0} (index : SpatialIndex Coordinate) : Type 1 where
  pub IsProper : Coordinate × Coordinate → Type 0
  -- The tree holds a value equal to this one.
  pub Holds : (Coordinate × Coordinate) × ℕ → index.Tree → Type 0
  -- How many values with an id the tree holds.
  pub occurrences : ℕ → index.Tree → ℕ
  pub occurrences-empty : (id : ℕ) → occurrences id index.empty ≡ 0
  pub occurrences-insert :
      (id : ℕ) (p : Coordinate × Coordinate) (t : index.Tree)
      → occurrences id (index.insert (p, id) t) ≡ suc (occurrences id t)
  pub occurrences-insert_ne :
      (id other : ℕ) (p : Coordinate × Coordinate) (t : index.Tree)
      → id ≢ other
      → occurrences id (index.insert (p, other) t) ≡ occurrences id t
  pub occurrences-remove :
      (id : ℕ) (p : Coordinate × Coordinate) (t : index.Tree)
      → Holds (p, id) t
      → occurrences id t ≡ suc (occurrences id (index.remove (p, id) t))
  pub occurrences-remove_ne :
      (id other : ℕ) (p : Coordinate × Coordinate) (t : index.Tree)
      → id ≢ other
      → occurrences id (index.remove (p, other) t) ≡ occurrences id t
  pub occurrences-rebuild :
      (id : ℕ) (t : index.Tree) → occurrences id (index.rebuild t) ≡ occurrences id t
  pub Holds-insert :
      (id : ℕ) (p : Coordinate × Coordinate) (t : index.Tree)
      → IsProper p
      → Holds (p, id) (index.insert (p, id) t)
  pub Holds-insert_ne :
      (v w : (Coordinate × Coordinate) × ℕ) (t : index.Tree)
      → Holds v t
      → Holds v (index.insert w t)
  pub Holds-remove_ne :
      (v w : (Coordinate × Coordinate) × ℕ) (t : index.Tree)
      → v.1 ≢ w.1
      → Holds v t
      → Holds v (index.remove w t)
  pub Holds-rebuild :
      (v : (Coordinate × Coordinate) × ℕ) (t : index.Tree) → Holds v t → Holds v (index.rebuild t)
  -- A query gives values of the tree.
  pub occurrences-query :
      (id : ℕ) (t : index.Tree) (box : (Coordinate × Coordinate) × (Coordinate × Coordinate))
      (p : Coordinate × Coordinate) (k : ℕ)
      → elem id (map (λ value. value.1) (index.query t box p k)) ≡ true
      → 0 < occurrences id t
