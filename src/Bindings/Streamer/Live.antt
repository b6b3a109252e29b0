-- ===== src/Bindings/Streamer/Live.antt =====
-- The map and the tree of src/playground/bindings/modules/streamer/streamer.cc hold the same
-- entities.
use playgroundjs_plugin.Bindings.Streamer.Rounds.{stream-iterated}
use playgroundjs_plugin.Bindings.Streamer.Batches.{among, nothing_among, among_cases}
use playgroundjs_plugin.Common.{
  ◌∙◌, ◌≡◌, ℕ_discrete, sym, find_id-insert_new_ne, find_id-insert_new_self, some_inj, some_absurd,
  find_id_nil, ap, find_id-erase_self, subst, Option-cases, inl, inr, find_id-erase_ne, arith, elem,
  true, ◌<◌, Bool-cases, ◌==◌, ◌||◌, ◌⊎◌, ◌/◌, false≢true,
}
use playgroundjs_plugin.Bindings.Streamer.{
  Streamer, optimise, add, new_streamer, ℕ, find_id, some, none, insert_new, delete, erase_key, suc,
  List, query_ids, query_iterators, StreamerUpdate, stream, not, ◌∷◌, ids_around, [], length,
}
use playgroundjs_plugin.Bindings.Streamer.Index.{SpatialIndex, IndexLaws}

module _ {Coordinate : Type 0} (index : SpatialIndex Coordinate) (laws : IndexLaws index) where
  -- The map `entities_` and the tree agree: what the map has, the tree holds, and the tree has one
  -- value for each id of the map and none for any other.
  pub record IsIndexed (s : Streamer index) : Type 0 where
    pub held :
        (id : ℕ) (p : Coordinate × Coordinate)
        → find_id id s.entities ≡ some p
        → laws.Holds (p, id) s.tree
    pub present :
        (id : ℕ) (p : Coordinate × Coordinate)
        → find_id id s.entities ≡ some p
        → laws.occurrences id s.tree ≡ 1
    pub absent : (id : ℕ) → find_id id s.entities ≡ none → laws.occurrences id s.tree ≡ 0

  -- A new streamer has no entity in either.
  pub new_streamer-IsIndexed :
      (max_visible max_distance : ℕ) → IsIndexed (new_streamer index max_visible max_distance)
  unfolding new_streamer
  new_streamer-IsIndexed v d = record {
    held = λ id p h. some_absurd (sym (find_id_nil id) ∙ h);
    present = λ id p h. some_absurd (sym (find_id_nil id) ∙ h);
    absent = λ id h. laws.occurrences-empty id;
  }

  pub optimise-IsIndexed : (s : Streamer index) → IsIndexed s → IsIndexed (optimise index s)
  unfolding optimise
  optimise-IsIndexed s h = record {
    held = λ id p e. laws.Holds-rebuild (p, id) s.tree (h.held id p e);
    present = λ id p e. laws.occurrences-rebuild id s.tree ∙ h.present id p e;
    absent = λ id e. laws.occurrences-rebuild id s.tree ∙ h.absent id e;
  }

  -- Adding under an id that is not in use, at a point that is equal to itself.
  pub add-IsIndexed :
      (id : ℕ) (x y z : Coordinate) (s : Streamer index)
      → find_id id s.entities ≡ none
      → laws.IsProper (x, y)
      → IsIndexed s
      → IsIndexed (add index id x y z s)
  unfolding add
  add-IsIndexed id x y z s fresh proper h = record {
    held = λ i p e. elim (ℕ_discrete i id) [
      | yes same ↦
          subst (λ q. laws.Holds (q, i) (index.insert ((x, y), id) s.tree)) (added i p e same)
            (subst (λ k. laws.Holds ((x, y), k) (index.insert ((x, y), id) s.tree)) (sym same)
              (laws.Holds-insert id (x, y) s.tree proper))
      | no other ↦
          laws.Holds-insert_ne (p, i) ((x, y), id) s.tree
            (h.held i p (sym (find_id-insert_new_ne id i (x, y) s.entities other) ∙ e))
    ];
    present = λ i p e. elim (ℕ_discrete i id) [
      | yes same ↦
          subst (λ k. laws.occurrences k (index.insert ((x, y), id) s.tree) ≡ 1) (sym same)
            (laws.occurrences-insert id (x, y) s.tree ∙ ap suc (h.absent id fresh))
      | no other ↦
          laws.occurrences-insert_ne i id (x, y) s.tree other
          ∙ h.present i p (sym (find_id-insert_new_ne id i (x, y) s.entities other) ∙ e)
    ];
    absent = λ i e. elim (ℕ_discrete i id) [
      | yes same ↦ absurd (stays i e same)
      | no other ↦
          laws.occurrences-insert_ne i id (x, y) s.tree other
          ∙ h.absent i (sym (find_id-insert_new_ne id i (x, y) s.entities other) ∙ e)
    ];
  }
    where
      found : find_id id (insert_new id (x, y) s.entities) ≡ some (x, y)
      found = find_id-insert_new_self id (x, y) s.entities fresh

      added :
          (i : ℕ) (p : Coordinate × Coordinate)
          → find_id i (insert_new id (x, y) s.entities) ≡ some p
          → i ≡ id
          → (x, y) ≡ p
      added i p e same =
          some_inj
            (sym found ∙ ap (λ k. find_id k (insert_new id (x, y) s.entities)) (sym same) ∙ e)

      stays : (i : ℕ) → find_id i (insert_new id (x, y) s.entities) ≡ none → i ≡ id → ⊥
      stays i e same =
          some_absurd (sym e ∙ ap (λ k. find_id k (insert_new id (x, y) s.entities)) same ∙ found)

  -- Deletion takes the entity out of both, or changes nothing.
  pub delete-IsIndexed : (id : ℕ) (s : Streamer index) → IsIndexed s → IsIndexed (delete index id s)
  unfolding delete
  delete-IsIndexed id s h = elim (Option-cases (find_id id s.entities)) [
    | inl n ↦ rw (n, delete) h
    | inr (q, f) ↦
        rw (f, delete)
          (record {
            held = λ i p e. elim (ℕ_discrete i id) [
              | yes same ↦ some_absurd (sym (erased i same) ∙ e)
              | no other ↦
                  laws.Holds-remove_ne (p, i) (q, id) s.tree other
                    (h.held i p (sym (find_id-erase_ne id i s.entities other) ∙ e))
            ];
            present = λ i p e. elim (ℕ_discrete i id) [
              | yes same ↦ some_absurd (sym (erased i same) ∙ e)
              | no other ↦
                  laws.occurrences-remove_ne i id q s.tree other
                  ∙ h.present i p (sym (find_id-erase_ne id i s.entities other) ∙ e)
            ];
            absent = λ i e. elim (ℕ_discrete i id) [
              | yes same ↦
                  subst (λ k. laws.occurrences k (index.remove (q, id) s.tree) ≡ 0) (sym same)
                    (omega (
                      arith,
                      laws.occurrences-remove id q s.tree (h.held id q f),
                      h.present id q f,
                    ))
              | no other ↦
                  laws.occurrences-remove_ne i id q s.tree other
                  ∙ h.absent i (sym (find_id-erase_ne id i s.entities other) ∙ e)
            ];
          })
  ]
    where
      erased : (i : ℕ) → i ≡ id → find_id i (erase_key id s.entities) ≡ none
      erased i same =
          ap (λ k. find_id k (erase_key id s.entities)) same ∙ find_id-erase_self id s.entities

  ids_around-occurrences :
      (s : Streamer index) (n id : ℕ) (update : StreamerUpdate Coordinate)
      → elem id (ids_around index s n update) ≡ true
      → 0 < laws.occurrences id s.tree
  unfolding ids_around
  ids_around-occurrences s n id update h = laws.occurrences-query id s.tree _ _ _ h

  query_ids-occurrences :
      (s : Streamer index) (n id : ℕ) (update : StreamerUpdate Coordinate) (ids : List ℕ)
      → query_ids index s n update ≡ some ids
      → elem id ids ≡ true
      → 0 < laws.occurrences id s.tree
  unfolding query_ids
  query_ids-occurrences s n id update ids e h =
      elim (Bool-cases (not (update.interior == 0) || not (update.virtual_world == 0))) [
        | inl away ↦ absurd (ground arith)
        | inr here ↦
            ids_around-occurrences s n id update
              (subst (λ l. elem id l ≡ true) (sym (ground arith)) h)
      ]

  query_iterators-occurrences :
      (s : Streamer index) (n id : ℕ) (updates : List (StreamerUpdate Coordinate))
      → among id (query_iterators index s n updates) ≡ true
      → 0 < laws.occurrences id s.tree
  unfolding query_iterators
  query_iterators-occurrences s n id [] h = nothing_among id h
  query_iterators-occurrences s n id (update ∷ updates) h =
      elim (Option-cases (query_ids index s n update)) [
        | inl none_here ↦ query_iterators-occurrences s n id updates (ground arith)
        | inr (ids, f) ↦
            elim (among_cases id ids (query_iterators index s n updates) (ground arith)) [
              | inl here ↦ query_ids-occurrences s n id update ids f here
              | inr there ↦ query_iterators-occurrences s n id updates there
            ]
      ]

  from_iterators :
      (id : ℕ) (iterators : List (List ℕ))
      → (elem id [] ≡ true) ⊎ (among id iterators ≡ true)
      → among id iterators ≡ true
  unfolding elem
  from_iterators id iterators (inl h) = absurd (false≢true h)
  from_iterators id iterators (inr h) = h

  -- What `Stream` returns are ids of entities that have been added and not deleted since, if the
  -- map and the tree agree.
  pub stream-live :
      (s : Streamer index) (updates : List (StreamerUpdate Coordinate)) (ids : List ℕ) (id : ℕ)
      → IsIndexed s
      → stream index s updates ≡ some ids
      → elem id ids ≡ true
      → (p : Coordinate × Coordinate) × (find_id id s.entities ≡ some p)
  stream-live s updates ids id h e there =
      let w = stream-iterated index s updates in
      let origin = w.2.origin id (subst (λ l. elem id l ≡ true) (some_inj (sym e ∙ w.1)) there) in
      let held =
        query_iterators-occurrences s (s.max_visible / length updates) id updates
          (from_iterators id _ origin) in
      elim (Option-cases (find_id id s.entities)) [
        | inr found ↦ found
        | inl gone ↦ absurd (omega (arith, h.absent id gone, held))
      ]
