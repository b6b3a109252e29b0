-- ===== src/Bindings/StreamerHost/Safety.antt =====
-- Whatever the interleaving of the two threads of
-- src/playground/bindings/modules/streamer/streamer_host.cc and streamer_worker.cc, a streamer's map
-- and tree stay in step.
use playgroundjs_plugin.Bindings.Streamer.Live.{
  IsIndexed, new_streamer-IsIndexed, delete-IsIndexed, add-IsIndexed, optimise-IsIndexed,
}
use playgroundjs_plugin.Common.{
  [], ℕ, List, ◌∷◌, find_id, none, some, erase_key, AllFound, ◌≤◌, ◌<◌, arith, ◌≡◌,
  AllFound-insert_new, Option-cases, inl, some_absurd, inr, sym, find_id_nil, ◌∙◌, AllFound-update,
  AllFound-erase, ℕ_discrete, ap, find_id-insert_new_ne, find_id-erase_self, find_id-erase_ne, ◌++◌,
}
use playgroundjs_plugin.Bindings.Streamer.Index.{IndexLaws, SpatialIndex}
use playgroundjs_plugin.Bindings.StreamerHost.{
  Job, StreamerWorker, add_entity, initialize, run_job, optimise_streamer, update_players,
  stream_entities, delete_entity, delete_all,
}
use playgroundjs_plugin.Bindings.Streamer.{
  Streamer, new_streamer, add as add_to, optimise as optimise_index, delete as delete_from,
}

module _ {Coordinate : Type 0} (index : SpatialIndex Coordinate) (laws : IndexLaws index) where
  -- A streamer whose map and tree agree, with ids up to a bound.
  pub record IsUpTo (bound : ℕ) (s : Streamer index) : Type 0 where
    pub indexed : IsIndexed index laws s
    pub below : (e : ℕ) (p : Coordinate × Coordinate) → find_id e s.entities ≡ some p → e ≤ bound

  -- Every streamer of the worker is so.
  abbrev pub IsWorkerUpTo : ℕ → StreamerWorker index → Type 0
  IsWorkerUpTo bound w = AllFound (IsUpTo bound) w.streamers

  -- The entities to be added have proper points and ascending ids between the bound and the last.
  abbrev pub IsQueued : ℕ → List (Job Coordinate) → ℕ → Type 0
  IsQueued bound [] last = bound ≤ last
  IsQueued bound (add_entity id entity x y z ∷ jobs) last =
      (bound < entity) × laws.IsProper (x, y) × IsQueued entity jobs last
  IsQueued bound (initialize id v d ∷ jobs) last = IsQueued bound jobs last
  IsQueued bound (optimise_streamer id ∷ jobs) last = IsQueued bound jobs last
  IsQueued bound (update_players updates ∷ jobs) last = IsQueued bound jobs last
  IsQueued bound (stream_entities id callback ∷ jobs) last = IsQueued bound jobs last
  IsQueued bound (delete_entity id entity ∷ jobs) last = IsQueued bound jobs last
  IsQueued bound (delete_all id ∷ jobs) last = IsQueued bound jobs last

  -- One job raises the bound to this.
  abbrev pub raise : ℕ → Job Coordinate → ℕ
  raise bound (initialize id v d) = bound
  raise bound (add_entity id entity x y z) = entity
  raise bound (optimise_streamer id) = bound
  raise bound (update_players updates) = bound
  raise bound (stream_entities id callback) = bound
  raise bound (delete_entity id entity) = bound
  raise bound (delete_all id) = bound

  unused :
      (bound entity : ℕ) (s : Streamer index)
      → IsUpTo bound s
      → bound < entity
      → find_id entity s.entities ≡ none
  unused bound entity s h over = elim (Option-cases (find_id entity s.entities)) [
    | inl free ↦ free
    | inr (p, f) ↦ absurd (omega (arith, h.below entity p f))
  ]

  IsUpTo-raise :
      (bound above : ℕ) (s : Streamer index) → bound ≤ above → IsUpTo bound s → IsUpTo above s
  IsUpTo-raise bound above s le h = record {
    indexed = h.indexed;
    below = λ e p f. omega (arith, h.below e p f);
  }

  add-IsUpTo :
      (bound entity : ℕ) (x y z : Coordinate) (s : Streamer index)
      → bound < entity
      → laws.IsProper (x, y)
      → IsUpTo bound s
      → IsUpTo entity (add_to index entity x y z s)
  unfolding add_to
  add-IsUpTo bound entity x y z s over proper h = record {
    indexed =
        add-IsIndexed index laws entity x y z s (unused bound entity s h over) proper h.indexed;
    below = λ e p f. elim (ℕ_discrete e entity) [
      | yes same ↦ omega arith
      | no other ↦
          omega
            (arith, h.below e p (sym (find_id-insert_new_ne entity e (x, y) s.entities other) ∙ f))
    ];
  }

  optimise-IsUpTo :
      (bound : ℕ) (s : Streamer index) → IsUpTo bound s → IsUpTo bound (optimise_index index s)
  unfolding optimise_index
  optimise-IsUpTo bound s h = record {
    indexed = optimise-IsIndexed index laws s h.indexed;
    below = h.below;
  }

  delete-below :
      (bound entity : ℕ) (s : Streamer index)
      → IsUpTo bound s
      → (e : ℕ) (p : Coordinate × Coordinate)
      → find_id e (delete_from index entity s).entities ≡ some p
      → e ≤ bound
  unfolding delete_from
  delete-below bound entity s h e p = elim (Option-cases (find_id entity s.entities)) [
    | inl n ↦ rw (n, delete_from) (h.below e p)
    | inr (q, f) ↦
        rw (f, delete_from)
          (λ g. elim (ℕ_discrete e entity) [
            | yes same ↦ some_absurd (
                sym (
                  ap (λ i. find_id i (erase_key entity s.entities)) same
                  ∙ find_id-erase_self entity s.entities)
                ∙ g)
            | no other ↦ h.below e p (sym (find_id-erase_ne entity e s.entities other) ∙ g)
          ])
  ]

  new_streamer-IsUpTo : (bound v d : ℕ) → IsUpTo bound (new_streamer index v d)
  unfolding new_streamer
  new_streamer-IsUpTo bound v d = record {
    indexed = new_streamer-IsIndexed index laws v d;
    below = λ e p f. some_absurd (sym (find_id_nil e) ∙ f);
  }

  pub run_job-IsWorkerUpTo :
      (job : Job Coordinate) (jobs : List (Job Coordinate)) (bound last : ℕ)
      (w : StreamerWorker index)
      → IsQueued bound (job ∷ jobs) last
      → IsWorkerUpTo bound w
      → IsWorkerUpTo (raise bound job) (run_job index job w) × IsQueued (raise bound job) jobs last
  unfolding run_job
  run_job-IsWorkerUpTo (initialize id v d) jobs bound last w q h = (
    AllFound-insert_new (IsUpTo bound) id (new_streamer index v d) w.streamers
        (new_streamer-IsUpTo bound v d) h,
    q,
  )
  run_job-IsWorkerUpTo (add_entity id entity x y z) jobs bound last w q h = (
    AllFound-update (IsUpTo bound) (IsUpTo entity) id (add_to index entity x y z) w.streamers
        (λ s u. IsUpTo-raise bound entity s (omega (arith, q.0)) u)
        (λ s u. add-IsUpTo bound entity x y z s q.0 q.1 u) h,
    q.2,
  )
  run_job-IsWorkerUpTo (optimise_streamer id) jobs bound last w q h = (
    AllFound-update (IsUpTo bound) (IsUpTo bound) id (optimise_index index) w.streamers (λ s u. u)
        (optimise-IsUpTo bound) h,
    q,
  )
  run_job-IsWorkerUpTo (update_players updates) jobs bound last w q h = (h, q)
  run_job-IsWorkerUpTo (stream_entities id callback) jobs bound last w q h = (h, q)
  run_job-IsWorkerUpTo (delete_entity id entity) jobs bound last w q h = (
    AllFound-update (IsUpTo bound) (IsUpTo bound) id (delete_from index entity) w.streamers
        (λ s u. u)
        (λ s u. record {
          indexed = delete-IsIndexed index laws entity s u.indexed;
          below = delete-below bound entity s u;
        })
        h,
    q,
  )
  run_job-IsWorkerUpTo (delete_all id) jobs bound last w q h =
      (AllFound-erase (IsUpTo bound) id w.streamers h, q)

  pub IsQueued-append :
      (jobs : List (Job Coordinate)) (job : Job Coordinate) (bound last after : ℕ)
      → IsQueued bound jobs last
      → ((b : ℕ) → b ≤ last → IsQueued b (job ∷ []) after)
      → IsQueued bound (jobs ++ (job ∷ [])) after
  IsQueued-append [] job bound last after q f = f bound q
  IsQueued-append (initialize id v d ∷ jobs) job bound last after q f =
      IsQueued-append jobs job bound last after q f
  IsQueued-append (add_entity id entity x y z ∷ jobs) job bound last after q f =
      (q.0, q.1, IsQueued-append jobs job entity last after q.2 f)
  IsQueued-append (optimise_streamer id ∷ jobs) job bound last after q f =
      IsQueued-append jobs job bound last after q f
  IsQueued-append (update_players updates ∷ jobs) job bound last after q f =
      IsQueued-append jobs job bound last after q f
  IsQueued-append (stream_entities id callback ∷ jobs) job bound last after q f =
      IsQueued-append jobs job bound last after q f
  IsQueued-append (delete_entity id entity ∷ jobs) job bound last after q f =
      IsQueued-append jobs job bound last after q f
  IsQueued-append (delete_all id ∷ jobs) job bound last after q f =
      IsQueued-append jobs job bound last after q f
