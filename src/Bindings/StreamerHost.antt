-- ===== src/Bindings/StreamerHost.antt =====
-- src/playground/bindings/modules/streamer/streamer_host.cc and streamer_worker.cc: the host on the
-- main thread posts jobs, and the worker runs them on the background thread, first come first
-- served. Times are whole milliseconds, and the functions of the server that the host calls for
-- each tracked player are parameters.
pub mod Safety
pub mod Interleavings
use playgroundjs_plugin.Bindings.Streamer.Index.{SpatialIndex}
use playgroundjs_plugin.Bindings.Streamer.{
  StreamerUpdate, Streamer, new_streamer, add as add_to, optimise as optimise_index,
  stream as stream_from, delete as delete_from,
}
use playgroundjs_plugin.Common.{
  none, ℕ, Bool, insert_id, if◌then◌else◌, List, ◌++◌, ◌+◌, Option, not, ◌∷◌, true, ◌%◌, insert_new,
  ltb, ◌^◌, update_id, [], elem, map, erase_id, length, find_id, false, ◌||◌, some, erase_key,
}

-- A bound function on the queue of the background thread. A callback is known by a number.
pub data Job (Coordinate : Type 0) : Type 0 where
  initialize : (streamer_id max_visible max_distance : ℕ) → Job Coordinate
  add_entity : (streamer_id entity_id : ℕ) (x y z : Coordinate) → Job Coordinate
  optimise_streamer : (streamer_id : ℕ) → Job Coordinate
  update_players : (updates : List (StreamerUpdate Coordinate)) → Job Coordinate
  stream_entities : (streamer_id callback : ℕ) → Job Coordinate
  delete_entity : (streamer_id entity_id : ℕ) → Job Coordinate
  delete_all : (streamer_id : ℕ) → Job Coordinate

-- `kStreamerUpdateIntervalMs`
abbrev pub streamer_update_interval_ms : ℕ
streamer_update_interval_ms = 250

-- `++id` on a `uint32_t`
unfoldable pub next_id : ℕ → ℕ
next_id id = (id + 1) % 2 ^ 32

-- `StreamerHost`, with what it has posted and no thread has taken yet.
pub record StreamerHost (Coordinate : Type 0) : Type 0 where
  pub active_streamer_ids : List ℕ
  pub last_streamer_id : ℕ
  pub last_entity_id : ℕ
  pub tracked_players : List ℕ
  pub tracked_players_invalidated : Bool
  pub last_update_time : ℕ
  pub queue : List (Job Coordinate)

module _ {Coordinate : Type 0} where
  -- `CallOnWorkerThread`
  unfoldable pub call_on_worker_thread :
      Job Coordinate → StreamerHost Coordinate → StreamerHost Coordinate
  call_on_worker_thread job h = record h { queue = h.queue ++ (job ∷ []) }

  -- `CreateStreamer`: the host afterwards; the id returned is its `last_streamer_id`.
  unfoldable pub create_streamer : ℕ → ℕ → StreamerHost Coordinate → StreamerHost Coordinate
  create_streamer max_visible max_distance h =
      let id = next_id h.last_streamer_id in
      call_on_worker_thread (initialize id max_visible max_distance) (record h {
        last_streamer_id = id;
        active_streamer_ids = insert_id id h.active_streamer_ids;
      })

  -- `Add`: the id returned, 0 if there is no such streamer, and the host.
  unfoldable pub add :
      ℕ
      → Coordinate
      → Coordinate
      → Coordinate
      → StreamerHost Coordinate
      → ℕ × StreamerHost Coordinate
  add streamer_id x y z h =
      if not (elem streamer_id h.active_streamer_ids)
      then (0, h)
      else let id = next_id h.last_entity_id in
        (
          id,
          call_on_worker_thread (add_entity streamer_id id x y z)
              (record h { last_entity_id = id }),
        )

  -- `Optimise`
  unfoldable pub optimise : ℕ → StreamerHost Coordinate → StreamerHost Coordinate
  optimise streamer_id h =
      if not (elem streamer_id h.active_streamer_ids)
      then h
      else call_on_worker_thread (optimise_streamer streamer_id) h

  -- `Stream`
  unfoldable pub stream : ℕ → ℕ → StreamerHost Coordinate → Bool × StreamerHost Coordinate
  stream streamer_id callback h =
      if not (elem streamer_id h.active_streamer_ids)
      then (false, h)
      else (true, call_on_worker_thread (stream_entities streamer_id callback) h)

  -- `Delete`
  unfoldable pub delete : ℕ → ℕ → StreamerHost Coordinate → StreamerHost Coordinate
  delete streamer_id entity_id h =
      if not (elem streamer_id h.active_streamer_ids)
      then h
      else call_on_worker_thread (delete_entity streamer_id entity_id) h

  -- `DeleteStreamer`
  unfoldable pub delete_streamer : ℕ → StreamerHost Coordinate → StreamerHost Coordinate
  delete_streamer streamer_id h =
      if not (elem streamer_id h.active_streamer_ids)
      then h
      else let posted = call_on_worker_thread (delete_all streamer_id) h in
        record posted { active_streamer_ids = erase_id streamer_id posted.active_streamer_ids }

  -- `SetTrackedPlayers`
  unfoldable pub set_tracked_players : List ℕ → StreamerHost Coordinate → StreamerHost Coordinate
  set_tracked_players players h = record h {
    tracked_players = players;
    tracked_players_invalidated = true;
  }

  -- The update that `OnFrame` makes for a player, which leaves `playerid` at its initial 0.
  unfoldable pub read_player :
      (ℕ → Coordinate × Coordinate × Coordinate) → (ℕ → ℕ) → (ℕ → ℕ) → ℕ → StreamerUpdate Coordinate
  read_player position interior virtual_world playerid = record {
    playerid = 0;
    position = position playerid;
    interior = interior playerid;
    virtual_world = virtual_world playerid;
  }

  -- `OnFrame`
  unfoldable pub on_frame :
      (ℕ → Coordinate × Coordinate × Coordinate)
      → (ℕ → ℕ)
      → (ℕ → ℕ)
      → ℕ
      → StreamerHost Coordinate
      → StreamerHost Coordinate
  on_frame position interior virtual_world current_time h =
      if ltb current_time (h.last_update_time + streamer_update_interval_ms)
      then h
      else let updates = map (read_player position interior virtual_world) h.tracked_players in
        let timed = record h { last_update_time = current_time } in
        let posted =
          if ltb 0 (length updates) || timed.tracked_players_invalidated
          then call_on_worker_thread (update_players updates) timed
          else timed in
        record posted { tracked_players_invalidated = false }

module _ {Coordinate : Type 0} (index : SpatialIndex Coordinate) where
  -- `StreamerWorker`, with the callbacks that it has posted to the main thread. What `Stream`
  -- computes stands there with the fuel of its loop, `none` if that ran out.
  pub record StreamerWorker : Type 0 where
    pub streamers : List (ℕ × Streamer index)
    pub latest_update : List (StreamerUpdate Coordinate)
    pub posted : List (ℕ × Option (List ℕ))

  -- The functions of the worker, each for the job that calls it.
  unfoldable pub run_job : Job Coordinate → StreamerWorker → StreamerWorker
  run_job (initialize id v d) w = record w {
    streamers = insert_new id (new_streamer index v d) w.streamers;
  }
  run_job (add_entity id entity x y z) w = record w {
    streamers = update_id id (add_to index entity x y z) w.streamers;
  }
  run_job (optimise_streamer id) w = record w {
    streamers = update_id id (optimise_index index) w.streamers;
  }
  run_job (update_players updates) w = record w { latest_update = updates }
  run_job (stream_entities id callback) w =
      let entities : Option (List ℕ) = elim (find_id id w.streamers) [
        | none ↦ some []
        | some s ↦ stream_from index s w.latest_update
      ] in
      record w { posted = w.posted ++ ((callback, entities) ∷ []) }
  run_job (delete_entity id entity) w = record w {
    streamers = update_id id (delete_from index entity) w.streamers;
  }
  run_job (delete_all id) w = record w { streamers = erase_key id w.streamers }

  -- The two threads.
  pub record System : Type 0 where
    pub host : StreamerHost Coordinate
    pub worker : StreamerWorker

  -- What can happen next: a call of the host on the main thread, or the background thread taking
  -- the oldest job.
  pub data Action : Type 0 where
    act_create : (max_visible max_distance : ℕ) → Action
    act_add : (streamer_id : ℕ) (x y z : Coordinate) → Action
    act_optimise : (streamer_id : ℕ) → Action
    act_stream : (streamer_id callback : ℕ) → Action
    act_delete : (streamer_id entity_id : ℕ) → Action
    act_delete_streamer : (streamer_id : ℕ) → Action
    act_track : (players : List ℕ) → Action
    act_frame :
        (position : ℕ → Coordinate × Coordinate × Coordinate) (interior virtual_world : ℕ → ℕ)
        (time : ℕ)
        → Action
    act_work : Action

  unfoldable pub work : System → System
  work s = elim s.host.queue [
    | [] ↦ s
    | job ∷ jobs ↦ record { host = record s.host { queue = jobs }; worker = run_job job s.worker }
  ]

  unfoldable pub perform : Action → System → System
  perform (act_create v d) s = record s { host = create_streamer v d s.host }
  perform (act_add id x y z) s = record s { host = (add id x y z s.host).1 }
  perform (act_optimise id) s = record s { host = optimise id s.host }
  perform (act_stream id callback) s = record s { host = (stream id callback s.host).1 }
  perform (act_delete id entity) s = record s { host = delete id entity s.host }
  perform (act_delete_streamer id) s = record s { host = delete_streamer id s.host }
  perform (act_track players) s = record s { host = set_tracked_players players s.host }
  perform (act_frame position interior virtual_world time) s = record s {
    host = on_frame position interior virtual_world time s.host;
  }
  perform act_work s = work s

  unfoldable pub perform_all : List Action → System → System
  perform_all [] s = s
  perform_all (a ∷ actions) s = perform_all actions (perform a s)

  -- Both as they are made.
  unfoldable pub new_system : ℕ → System
  new_system time = record {
    host = record {
      active_streamer_ids = [];
      last_streamer_id = 0;
      last_entity_id = 0;
      tracked_players = [];
      tracked_players_invalidated = false;
      last_update_time = time;
      queue = [];
    };
    worker = record { streamers = []; latest_update = []; posted = [] };
  }
