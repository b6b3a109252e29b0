-- ===== src/Bindings/Streamer.antt =====
-- src/playground/bindings/modules/streamer/streamer.cc and streamer.h: which entities of a
-- streamer are to exist, given where the players are. The R*-tree of Boost.Geometry is a
-- parameter.
pub mod Index
pub mod Batches
pub mod Rounds
pub mod Live
pub mod ListIndex
use playgroundjs_plugin.Bindings.Streamer.Index.{SpatialIndex}
use playgroundjs_plugin.Common.{
  ℕ, max, Option, insert_new, find_id, List, [], if◌then◌else◌, ◌∷◌, ◌-◌, none, not, suc, some, ◌/◌,
  length, insert_id, ltb, ◌+◌, ◌==◌, erase_key, ◌&&◌, ◌||◌, map, zero, ◌*◌,
}

-- `StreamerUpdate`: where one player is, as the host last read it.
pub record StreamerUpdate (Coordinate : Type 0) : Type 0 where
  pub playerid : ℕ
  pub position : Coordinate × Coordinate × Coordinate
  pub interior : ℕ
  pub virtual_world : ℕ

-- What a run of the inner `for` of `Stream` leaves: what the iterator has left, `batch_size` and
-- the set of entities.
pub record Batch : Type 0 where
  pub iterator : List ℕ
  pub batch_size : ℕ
  pub entities : List ℕ

-- One run of the inner `for` of `Stream` over an iterator: the ids it has left to give, in order,
-- with `batch_size` so far.
unfoldable pub batch_loop : ℕ → ℕ → List ℕ → ℕ → List ℕ → Batch
batch_loop max_visible max_per_player [] batch_size entities = record {
  iterator = [];
  batch_size = batch_size;
  entities = entities;
}
batch_loop max_visible max_per_player (id ∷ iterator) batch_size entities =
    let inserted = insert_id id entities in
    let behind = batch_loop max_visible max_per_player iterator (suc batch_size) inserted in
    if ltb batch_size max_per_player
    then if length inserted == max_visible
      then record { iterator = id ∷ iterator; batch_size = batch_size; entities = inserted }
      else behind
    else record { iterator = id ∷ iterator; batch_size = batch_size; entities = entities }

-- The `for` of `Stream` over the iterators: those it keeps, and the set.
unfoldable pub round_loop : ℕ → ℕ → List (List ℕ) → List ℕ → List (List ℕ) × List ℕ
round_loop max_visible max_per_player [] entities = ([], entities)
round_loop max_visible max_per_player (iterator ∷ iterators) entities =
    let batch = batch_loop max_visible max_per_player iterator 0 entities in
    let behind = round_loop max_visible max_per_player iterators batch.entities in
    if length entities == max_visible
    then (iterator ∷ iterators, entities)
    else if batch.batch_size == max_per_player
    then (batch.iterator ∷ behind.0, behind.1)
    else behind

-- The size of the next batches. The source subtracts only below `max_visible_`.
unfoldable pub batch_limit : ℕ → ℕ → ℕ → ℕ
batch_limit max_visible updates entities = max ((max_visible - entities) / updates) 2

-- The `while` of `Stream` on fuel.
unfoldable pub while_loop : ℕ → ℕ → ℕ → List (List ℕ) → List ℕ → Option (List ℕ)
while_loop zero max_visible updates iterators entities = none
while_loop (suc fuel) max_visible updates iterators entities =
    let round =
      round_loop max_visible (batch_limit max_visible updates (length entities)) iterators
        entities in
    let rest = while_loop fuel max_visible updates round.0 round.1 in
    if ltb (length entities) max_visible && ltb 0 (length iterators) then rest else some entities

-- How much the iterators have left to give, and how many they are.
abbrev pub left_over : List (List ℕ) → ℕ
left_over [] = 0
left_over (iterator ∷ iterators) = suc (length iterator + left_over iterators)

module _ {Coordinate : Type 0} (index : SpatialIndex Coordinate) where
  -- `Streamer`
  pub record Streamer : Type 0 where
    pub max_visible : ℕ
    pub max_distance : ℕ
    pub entities : List (ℕ × (Coordinate × Coordinate))
    pub tree : index.Tree

  -- The constructor.
  unfoldable pub new_streamer : ℕ → ℕ → Streamer
  new_streamer max_visible max_distance = record {
    max_visible = max_visible;
    max_distance = max_distance;
    entities = [];
    tree = index.empty;
  }

  -- `Add`
  unfoldable pub add : ℕ → Coordinate → Coordinate → Coordinate → Streamer → Streamer
  add entity_id x y z s = record s {
    entities = insert_new entity_id (x, y) s.entities;
    tree = index.insert ((x, y), entity_id) s.tree;
  }

  -- `Optimise`
  unfoldable pub optimise : Streamer → Streamer
  optimise s = record s { tree = index.rebuild s.tree }

  -- `Delete`
  unfoldable pub delete : ℕ → Streamer → Streamer
  delete entity_id s = elim (find_id entity_id s.entities) [
    | none ↦ s
    | some position ↦ record s {
      entities = erase_key entity_id s.entities;
      tree = index.remove (position, entity_id) s.tree;
    }
  ]

  -- `size`
  unfoldable pub size : Streamer → ℕ
  size s = index.size s.tree

  -- What the iterator of one update gives: the ids around the player's position.
  unfoldable pub ids_around : Streamer → ℕ → StreamerUpdate Coordinate → List ℕ
  ids_around s max_per_player update =
      let x = update.position.0 in
      let y = update.position.1 in
      let low : Coordinate × Coordinate =
        (index.minus x s.max_distance, index.minus y s.max_distance) in
      let high : Coordinate × Coordinate =
        (index.plus x s.max_distance, index.plus y s.max_distance) in
      map (λ value. value.1) (index.query s.tree (low, high) (x, y) (max (max_per_player * 2) 100))

  -- That iterator, or `none` for a player who is not in the main world.
  unfoldable pub query_ids : Streamer → ℕ → StreamerUpdate Coordinate → Option (List ℕ)
  query_ids s max_per_player update =
      if not (update.interior == 0) || not (update.virtual_world == 0)
      then none
      else some (ids_around s max_per_player update)

  -- The loop of `Stream` that makes the iterators.
  unfoldable pub query_iterators : Streamer → ℕ → List (StreamerUpdate Coordinate) → List (List ℕ)
  query_iterators s max_per_player [] = []
  query_iterators s max_per_player (update ∷ updates) =
      let behind = query_iterators s max_per_player updates in
      elim (query_ids s max_per_player update) [ none ↦ behind | some ids ↦ ids ∷ behind ]

  -- `Stream`, with fuel for the `while`.
  unfoldable pub stream : Streamer → List (StreamerUpdate Coordinate) → Option (List ℕ)
  stream s updates =
      if length updates == 0
      then some []
      else let iterators = query_iterators s (s.max_visible / length updates) updates in
        while_loop (suc (left_over iterators)) s.max_visible (length updates) iterators []
