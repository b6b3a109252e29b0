-- ===== src/Bindings/StreamerHost/Interleavings.antt =====
-- Every interleaving of the two threads of
-- src/playground/bindings/modules/streamer/streamer_host.cc and streamer_worker.cc keeps the
-- worker's streamers in step.
use playgroundjs_plugin.Bindings.Streamer.Live.{IsIndexed}
use playgroundjs_plugin.Bindings.StreamerHost.Safety.{
  IsWorkerUpTo, IsQueued, IsQueued-append, run_job-IsWorkerUpTo, raise, IsUpTo,
}
use playgroundjs_plugin.Common.{
  ◌≤◌, Bool-cases, ◌<◌, ◌∷◌, inr, ◌^◌, ◌≡◌, inl, arith, ◌+◌, subst, refl, ◌||◌, AllFound-nil, All,
}
use Prim.Native.Nat.{suc}
use playgroundjs_plugin.Bindings.Streamer.Index.{IndexLaws}
use playgroundjs_plugin.Bindings.StreamerHost.{
  Job, StreamerHost, System, Action, perform, create_streamer, add, optimise, stream, delete,
  delete_streamer, set_tracked_players, on_frame, call_on_worker_thread, next_id, initialize,
  optimise_streamer, update_players, stream_entities, delete_entity, delete_all, SpatialIndex, ℕ,
  elem, [], ltb, work, act_add, act_create, act_optimise, List, streamer_update_interval_ms,
  act_stream, act_delete, length, act_delete_streamer, map, read_player, act_track, act_frame,
  act_work, new_system, Streamer, perform_all, find_id, some,
}

module _ {Coordinate : Type 0} (index : SpatialIndex Coordinate) (laws : IndexLaws index) where
  -- The worker has done what is behind the bound, and the queue continues from there.
  record IsSafe (s : System index) : Type 0 where
    bound : ℕ
    streamers : IsWorkerUpTo index laws bound s.worker
    queued : IsQueued index laws bound s.host.queue s.host.last_entity_id

  -- A host whose queue has one more job, which adds no entity.
  post-IsQueued :
      (job : Job Coordinate) (h : StreamerHost Coordinate) (b : ℕ)
      → ((c : ℕ) → c ≤ h.last_entity_id → IsQueued index laws c (job ∷ []) h.last_entity_id)
      → IsQueued index laws b h.queue h.last_entity_id
      → IsQueued index laws b
          (call_on_worker_thread job h).queue
          (call_on_worker_thread job h).last_entity_id
  unfolding call_on_worker_thread
  post-IsQueued job h b alone q =
      IsQueued-append index laws h.queue job b h.last_entity_id h.last_entity_id q alone

  abbrev HostSafe : ℕ → StreamerHost Coordinate → Type 0
  HostSafe b h = IsQueued index laws b h.queue h.last_entity_id

  create-HostSafe :
      (b v d : ℕ) (h : StreamerHost Coordinate) → HostSafe b h → HostSafe b (create_streamer v d h)
  unfolding create_streamer
  create-HostSafe b v d h q =
      post-IsQueued (initialize (next_id h.last_streamer_id) v d) _ b (λ c k. k) q

  next_id-suc : (id : ℕ) → suc id < 2 ^ 32 → next_id id ≡ suc id
  unfolding next_id
  next_id-suc id h = omega arith

  add-HostSafe :
      (b id : ℕ) (x y z : Coordinate) (h : StreamerHost Coordinate)
      → suc h.last_entity_id < 2 ^ 32
      → laws.IsProper (x, y)
      → HostSafe b h
      → HostSafe b (add id x y z h).1
  unfolding add call_on_worker_thread
  add-HostSafe b id x y z h room proper q = elim (Bool-cases (elem id h.active_streamer_ids)) [
    | inr absent ↦ rw absent q
    | inl active ↦
        rw (active, next_id-suc h.last_entity_id room)
          (IsQueued-append index laws h.queue _ b h.last_entity_id (suc h.last_entity_id) q
            (λ c k. (omega arith, proper, omega arith)))
  ]

  delete_streamer-HostSafe :
      (b id : ℕ) (h : StreamerHost Coordinate) → HostSafe b h → HostSafe b (delete_streamer id h)
  unfolding delete_streamer
  delete_streamer-HostSafe b id h q = elim (Bool-cases (elem id h.active_streamer_ids)) [
    | inr absent ↦ rw absent q
    | inl active ↦ rw active (post-IsQueued (delete_all id) h b (λ c k. k) q)
  ]

  optimise-HostSafe :
      (b id : ℕ) (h : StreamerHost Coordinate) → HostSafe b h → HostSafe b (optimise id h)
  unfolding optimise
  optimise-HostSafe b id h q = elim (Bool-cases (elem id h.active_streamer_ids)) [
    | inr absent ↦ rw absent q
    | inl active ↦ rw active (post-IsQueued (optimise_streamer id) h b (λ c k. k) q)
  ]

  stream-HostSafe :
      (b id callback : ℕ) (h : StreamerHost Coordinate)
      → HostSafe b h
      → HostSafe b (stream id callback h).1
  unfolding stream
  stream-HostSafe b id callback h q = elim (Bool-cases (elem id h.active_streamer_ids)) [
    | inr absent ↦ rw absent q
    | inl active ↦ rw active (post-IsQueued (stream_entities id callback) h b (λ c k. k) q)
  ]

  delete-HostSafe :
      (b id entity : ℕ) (h : StreamerHost Coordinate)
      → HostSafe b h
      → HostSafe b (delete id entity h)
  unfolding delete
  delete-HostSafe b id entity h q = elim (Bool-cases (elem id h.active_streamer_ids)) [
    | inr absent ↦ rw absent q
    | inl active ↦ rw active (post-IsQueued (delete_entity id entity) h b (λ c k. k) q)
  ]

  on_frame-HostSafe :
      (b : ℕ) (position : ℕ → Coordinate × Coordinate × Coordinate) (interior virtual_world : ℕ → ℕ)
      (time : ℕ) (h : StreamerHost Coordinate)
      → HostSafe b h
      → HostSafe b (on_frame position interior virtual_world time h)
  unfolding on_frame
  on_frame-HostSafe b position interior virtual_world time h q =
      elim (Bool-cases (ltb time (h.last_update_time + streamer_update_interval_ms))) [
        | inl early ↦ rw early q
        | inr due ↦
            elim (Bool-cases (
              ltb 0 (length (map (read_player position interior virtual_world) h.tracked_players))
              || h.tracked_players_invalidated)) [
                | inl go ↦ rw (due, go) (post-IsQueued (update_players _) _ b (λ c k. k) q)
                | inr idle ↦ rw (due, idle) q
              ]
      ]

  -- What an action asks of its coordinates: an entity is added at a point equal to itself.
  abbrev pub IsProperAction : Action index → Type 0
  IsProperAction (act_add id x y z) = laws.IsProper (x, y)
  IsProperAction (act_create v d) = Unit
  IsProperAction (act_optimise id) = Unit
  IsProperAction (act_stream id callback) = Unit
  IsProperAction (act_delete id entity) = Unit
  IsProperAction (act_delete_streamer id) = Unit
  IsProperAction (act_track players) = Unit
  IsProperAction (act_frame position interior virtual_world time) = Unit
  IsProperAction act_work = Unit

  work-IsSafe : (s : System index) → IsSafe s → IsSafe (work index s)
  unfolding work
  work-IsSafe s h = take_job s.host.queue refl
    where
      take_job : (q : List (Job Coordinate)) → s.host.queue ≡ q → IsSafe (work index s)
      take_job [] e = rw (e, work) h
      take_job (job ∷ jobs) e =
          let r =
            run_job-IsWorkerUpTo index laws job jobs h.bound s.host.last_entity_id s.worker
              (subst (λ q. IsQueued index laws h.bound q s.host.last_entity_id) e h.queued)
              h.streamers in
          rw (e, work)
            (record { bound = raise index laws h.bound job; streamers = r.0; queued = r.1 })

  perform-IsSafe :
      (a : Action index) (s : System index)
      → IsProperAction a
      → suc s.host.last_entity_id < 2 ^ 32
      → IsSafe s
      → IsSafe (perform index a s)
  unfolding perform
  perform-IsSafe (act_create v d) s p r h = record {
    bound = h.bound;
    streamers = h.streamers;
    queued = create-HostSafe h.bound v d s.host h.queued;
  }
  perform-IsSafe (act_add id x y z) s p r h = record {
    bound = h.bound;
    streamers = h.streamers;
    queued = add-HostSafe h.bound id x y z s.host r p h.queued;
  }
  perform-IsSafe (act_optimise id) s p r h = record {
    bound = h.bound;
    streamers = h.streamers;
    queued = optimise-HostSafe h.bound id s.host h.queued;
  }
  perform-IsSafe (act_stream id callback) s p r h = record {
    bound = h.bound;
    streamers = h.streamers;
    queued = stream-HostSafe h.bound id callback s.host h.queued;
  }
  perform-IsSafe (act_delete id entity) s p r h = record {
    bound = h.bound;
    streamers = h.streamers;
    queued = delete-HostSafe h.bound id entity s.host h.queued;
  }
  perform-IsSafe (act_delete_streamer id) s p r h = record {
    bound = h.bound;
    streamers = h.streamers;
    queued = delete_streamer-HostSafe h.bound id s.host h.queued;
  }
  perform-IsSafe (act_track players) s p r h = record {
    bound = h.bound;
    streamers = h.streamers;
    queued = unfold set_tracked_players in h.queued;
  }
  perform-IsSafe (act_frame position interior virtual_world time) s p r h = record {
    bound = h.bound;
    streamers = h.streamers;
    queued = on_frame-HostSafe h.bound position interior virtual_world time s.host h.queued;
  }
  perform-IsSafe act_work s p r h = work-IsSafe s h

  work-last : (s : System index) → (work index s).host.last_entity_id ≡ s.host.last_entity_id
  unfolding work
  work-last s = take_job s.host.queue refl
    where
      take_job :
          (q : List (Job Coordinate))
          → s.host.queue ≡ q
          → (work index s).host.last_entity_id ≡ s.host.last_entity_id
      take_job [] e = rw (e, work) refl
      take_job (job ∷ jobs) e = rw (e, work) refl

  perform-last :
      (a : Action index) (s : System index)
      → (perform index a s).host.last_entity_id ≤ suc s.host.last_entity_id
  unfolding perform add create_streamer optimise stream delete delete_streamer set_tracked_players
      on_frame next_id call_on_worker_thread
  perform-last (act_create v d) s = ground arith
  perform-last (act_add id x y z) s = ground arith
  perform-last (act_optimise id) s = ground arith
  perform-last (act_stream id callback) s = ground arith
  perform-last (act_delete id entity) s = ground arith
  perform-last (act_delete_streamer id) s = ground arith
  perform-last (act_track players) s = ground arith
  perform-last (act_frame position interior virtual_world time) s = ground arith
  perform-last act_work s = omega (arith, work-last s)

  perform_all-IsSafe :
      (actions : List (Action index)) (s : System index)
      → All IsProperAction actions
      → s.host.last_entity_id + length actions < 2 ^ 32
      → IsSafe s
      → IsSafe (perform_all index actions s)
  unfolding perform_all
  perform_all-IsSafe [] s p room h = h
  perform_all-IsSafe (a ∷ actions) s p room h =
      perform_all-IsSafe actions (perform index a s) p.1 (omega (arith, perform-last a s))
        (perform-IsSafe a s p.0 (omega arith) h)

  new_system-IsSafe : (time : ℕ) → IsSafe (new_system index time)
  unfolding new_system
  new_system-IsSafe time = record {
    bound = 0;
    streamers = AllFound-nil (IsUpTo index laws 0);
    queued = omega arith;
  }

  start_last :
      (actions : List (Action index)) (time : ℕ)
      → length actions < 2 ^ 32
      → (new_system index time).host.last_entity_id + length actions < 2 ^ 32
  unfolding new_system
  start_last actions time few = omega arith

  -- From the start on, whatever the two threads do and however their steps interleave, with fewer
  -- than 2^32 steps and entities added at points that are equal to themselves: every streamer that
  -- the worker has keeps its map and its tree in agreement.
  pub perform_all-IsIndexed :
      (actions : List (Action index)) (time id : ℕ) (streamer : Streamer index)
      → All IsProperAction actions
      → length actions < 2 ^ 32
      → find_id id (perform_all index actions (new_system index time)).worker.streamers
        ≡ some streamer
      → IsIndexed index laws streamer
  perform_all-IsIndexed actions time id streamer proper few found =
      let safe =
        perform_all-IsSafe actions (new_system index time) proper (start_last actions time few)
          (new_system-IsSafe time) in
      (safe.streamers id streamer found).indexed
