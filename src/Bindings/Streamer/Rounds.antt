-- ===== src/Bindings/Streamer/Rounds.antt =====
-- The `while` of `Stream` in src/playground/bindings/modules/streamer/streamer.cc: its rounds, and
-- the whole of it.
use playgroundjs_plugin.Bindings.Streamer.Batches.{
  IsRound, among, batch_loop-IsBatch, step-keeping, step-erasing,
}
use playgroundjs_plugin.Common.{
  ◌<◌, IsAscending, ◌≤◌, inl, ◌≡◌, inr, elem, true, ◌⊎◌, arith, ap, Bool-cases, ◌==◌, refl, ◌&&◌,
  false, false≢true, zero, suc, ◌/◌, ◌∙◌, subst, if◌then◌else◌, not, ◌||◌, none,
}
use playgroundjs_plugin.Bindings.Streamer.{
  round_loop, ℕ, List, length, ◌∷◌, [], batch_loop, ltb, batch_limit, while_loop, left_over, some,
  suc, stream, SpatialIndex, Streamer, StreamerUpdate, query_iterators, query_ids, ids_around,
}

abbrev RoundOf : ℕ → ℕ → List (List ℕ) → List ℕ → Type 0
RoundOf v p iterators es = let r = round_loop v p iterators es in IsRound v iterators es r.0 r.1

idle :
    (v : ℕ) (iterators : List (List ℕ)) (es : List ℕ)
    → length es ≤ v
    → (length es ≡ v) ⊎ (iterators ≡ [])
    → IsRound v iterators es iterators es
idle v iterators es h why = record {
  sorted = λ a. a;
  bounded = h;
  grown = omega arith;
  kept = λ x a. a;
  given = inr (λ x a. inl a);
  origin = λ x a. inl a;
  remains = λ x a. a;
  shrunk = omega arith;
  progress = λ a b. absurd (idle_stuck why a b);
}
  where
    idle_stuck : (length es ≡ v) ⊎ (iterators ≡ []) → length es < v → 0 < length iterators → ⊥
    idle_stuck (inl e) a b = omega arith
    idle_stuck (inr e) a b = omega (arith, ap length e)

round_loop-IsRound :
    (v p : ℕ) (iterators : List (List ℕ)) (es : List ℕ)
    → 0 < p
    → length es ≤ v
    → RoundOf v p iterators es
unfolding round_loop
round_loop-IsRound v p [] es some_more h = idle v [] es h (inr refl)
round_loop-IsRound v p (iterator ∷ iterators) es some_more h =
    let b = batch_loop v p iterator 0 es in
    elim (Bool-cases (length es == v)) [
      | inl full ↦ rw full (idle v (iterator ∷ iterators) es h (inl (ground arith)))
      | inr room ↦
          let fresh : length es < v = ground arith in
          let batch = batch_loop-IsBatch v p iterator 0 es fresh (omega arith) in
          let behind = round_loop-IsRound v p iterators b.entities some_more (batch.bounded h) in
          elim (Bool-cases (b.batch_size == p)) [
            | inl keep ↦
                rw (room, keep)
                  (step-keeping v p iterator iterators es b fresh some_more batch _ _ behind
                    (ground arith))
            | inr erase ↦
                rw (room, erase)
                  (step-erasing v p iterator iterators es b fresh some_more batch _ _ behind
                    (ground arith))
          ]
    ]

-- What the whole loop gives: ids that stand in ascending order, no more than there may be, from
-- the set it began with or from an iterator; and either as many as there may be, or all.
pub record IsStreamed (max_visible : ℕ) (iterators : List (List ℕ)) (entities result : List ℕ)
    : Type 0 where
  pub sorted : IsAscending entities → IsAscending result
  pub bounded : length result ≤ max_visible
  pub kept : (x : ℕ) → elem x entities ≡ true → elem x result ≡ true
  pub origin :
      (x : ℕ) → elem x result ≡ true → (elem x entities ≡ true) ⊎ (among x iterators ≡ true)
  pub complete :
      (length result ≡ max_visible) ⊎ ((x : ℕ) → among x iterators ≡ true → elem x result ≡ true)

IsStreamed-round :
    (v : ℕ) (iterators left : List (List ℕ)) (es middle result : List ℕ)
    → IsRound v iterators es left middle
    → length middle ≤ length result
    → IsStreamed v left middle result
    → IsStreamed v iterators es result
IsStreamed-round v iterators left es middle result r grown s = record {
  sorted = λ h. s.sorted (r.sorted h);
  bounded = s.bounded;
  kept = λ x h. s.kept x (r.kept x h);
  origin = λ x h. elim (s.origin x h) [
    | inl early ↦ r.origin x early
    | inr late ↦ inr (r.remains x late)
  ];
  complete = elim r.given [
    | inl full ↦ inl (omega (arith, s.bounded))
    | inr g ↦ elim s.complete [
      | inl full ↦ inl full
      | inr all ↦ inr (λ x h. elim (g x h) [ inl l ↦ all x l | inr m ↦ s.kept x m ])
    ]
  ];
}

batch_limit-positive : (v updates entities : ℕ) → 0 < batch_limit v updates entities
unfolding batch_limit
batch_limit-positive v updates entities = omega arith

IsStreamed-idle :
    (v : ℕ) (iterators : List (List ℕ)) (es : List ℕ)
    → length es ≤ v
    → (ltb (length es) v && ltb 0 (length iterators)) ≡ false
    → IsStreamed v iterators es es
IsStreamed-idle v [] es h stop = record {
  sorted = λ a. a;
  bounded = h;
  kept = λ x a. a;
  origin = λ x a. inl a;
  complete = inr (λ x a. absurd (unfold among in false≢true a));
}
IsStreamed-idle v (i ∷ is) es h stop = record {
  sorted = λ a. a;
  bounded = h;
  kept = λ x a. a;
  origin = λ x a. inl a;
  complete = inl (ground arith);
}

-- With fuel for each id left to give and each iterator, the loop ends.
pub while_loop-IsStreamed :
    (fuel v updates : ℕ) (iterators : List (List ℕ)) (es : List ℕ)
    → left_over iterators < fuel
    → length es ≤ v
    → (result : List ℕ) × (while_loop fuel v updates iterators es ≡ some result)
      × (length es ≤ length result)
      × IsStreamed v iterators es result
unfolding while_loop
while_loop-IsStreamed zero v updates iterators es fuel h = elim fuel [ ]
while_loop-IsStreamed (suc n) v updates iterators es fuel h =
    elim (Bool-cases (ltb (length es) v && ltb 0 (length iterators))) [
      | inr stop ↦ (es, rw stop refl, omega arith, IsStreamed-idle v iterators es h stop)
      | inl go ↦
          let p = batch_limit v updates (length es) in
          let r =
            round_loop-IsRound v p iterators es (batch_limit-positive v updates (length es)) h in
          let next = round_loop v p iterators es in
          let w =
            while_loop-IsStreamed n v updates next.0 next.1
              (omega (arith, r.progress (ground arith) (ground arith))) r.bounded in
          (
            w.0,
            rw go w.1,
            omega (arith, r.grown, w.2),
            IsStreamed-round v iterators next.0 es next.1 w.0 r w.2 w.3,
          )
    ]

stream-updates :
    {Coordinate : Type 0} (index : SpatialIndex Coordinate) (s : Streamer index)
    (update : StreamerUpdate Coordinate) (updates : List (StreamerUpdate Coordinate))
    → let n = length (update ∷ updates) in
      let iterators = query_iterators index s (s.max_visible / n) (update ∷ updates) in
      stream index s (update ∷ updates)
      ≡ while_loop (suc (left_over iterators)) s.max_visible n iterators []
unfolding stream
stream-updates index s update updates = ground arith

pub stream-iterated :
    {Coordinate : Type 0} (index : SpatialIndex Coordinate) (s : Streamer index)
    (updates : List (StreamerUpdate Coordinate))
    → (ids : List ℕ) × (stream index s updates ≡ some ids)
      × IsStreamed s.max_visible
          (query_iterators index s (s.max_visible / length updates) updates)
          []
          ids
unfolding stream query_iterators
stream-iterated index s [] =
    ([], refl, IsStreamed-idle s.max_visible [] [] (omega arith) (ground arith))
stream-iterated index s (update ∷ updates) =
    let n = length (update ∷ updates) in
    let iterators = query_iterators index s (s.max_visible / n) (update ∷ updates) in
    let w =
      while_loop-IsStreamed (suc (left_over iterators)) s.max_visible n iterators [] (omega arith)
        (omega arith) in
    (w.0, stream-updates index s update updates ∙ w.1, w.3)

-- Ids in front of others, if both the interior and the virtual world are 0.
abbrev pub if_main_world : ℕ → ℕ → List ℕ → List (List ℕ) → List (List ℕ)
if_main_world zero zero ids others = ids ∷ others
if_main_world zero (suc virtual_world) ids others = others
if_main_world (suc interior) virtual_world ids others = others

-- What the tree gives around each player in the main world.
abbrev pub main_world_queries :
    {Coordinate : Type 0} (index : SpatialIndex Coordinate)
    → Streamer index
    → ℕ
    → List (StreamerUpdate Coordinate)
    → List (List ℕ)
main_world_queries index s max_per_player [] = []
main_world_queries index s max_per_player (update ∷ updates) =
    if_main_world update.interior update.virtual_world (ids_around index s max_per_player update)
      (main_world_queries index s max_per_player updates)

one_query :
    (interior virtual_world : ℕ) (ids : List ℕ) (others : List (List ℕ))
    → elim (if not (interior == 0) || not (virtual_world == 0) then none else some ids) [
      | none ↦ others
      | some given ↦ given ∷ others
    ]
      ≡ if_main_world interior virtual_world ids others
one_query zero zero ids others = refl
one_query zero (suc virtual_world) ids others = ground arith
one_query (suc interior) virtual_world ids others = ground arith

query_iterators-main_world :
    {Coordinate : Type 0} (index : SpatialIndex Coordinate) (s : Streamer index)
    (max_per_player : ℕ) (updates : List (StreamerUpdate Coordinate))
    → query_iterators index s max_per_player updates
      ≡ main_world_queries index s max_per_player updates
unfolding query_iterators query_ids
query_iterators-main_world index s max_per_player [] = refl
query_iterators-main_world index s max_per_player (update ∷ updates) =
    one_query update.interior update.virtual_world (ids_around index s max_per_player update)
      (query_iterators index s max_per_player updates)
    ∙ ap
        (if_main_world update.interior update.virtual_world
          (ids_around index s max_per_player update))
        (query_iterators-main_world index s max_per_player updates)

-- `Stream` ends with a set of ids that stand in ascending order, are no more than max_visible, and
-- were all given by the query of a player whose interior and virtual world are 0; and either there
-- are exactly max_visible of them, or every id that such a query gives is one of them.
pub stream-IsStreamed :
    {Coordinate : Type 0} (index : SpatialIndex Coordinate) (s : Streamer index)
    (updates : List (StreamerUpdate Coordinate))
    → (ids : List ℕ) × (stream index s updates ≡ some ids)
      × IsStreamed s.max_visible
          (main_world_queries index s (s.max_visible / length updates) updates)
          []
          ids
stream-IsStreamed index s updates =
    let (ids, ends, streamed) = stream-iterated index s updates in
    (
      ids,
      ends,
      subst (λ queries. IsStreamed s.max_visible queries [] ids)
          (query_iterators-main_world index s (s.max_visible / length updates) updates) streamed,
    )
