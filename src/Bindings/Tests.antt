-- ===== src/Bindings/Tests.antt =====
-- Runs of the code of src/playground/bindings on concrete inputs, and the theorems at inputs that
-- meet their hypotheses.
use playgroundjs_plugin.Bindings.Socket.Settled.{handle_all-settled}
use playgroundjs_plugin.Bindings.StreamerHost.Interleavings.{perform_all-IsIndexed}
use playgroundjs_plugin.Bindings.Streamer.Rounds.{IsStreamed, stream-IsStreamed, main_world_queries}
use playgroundjs_plugin.Bindings.Streamer.ListIndex.{list_index, list_index-laws}
use playgroundjs_plugin.Bindings.Socket.Promises.{count, promise_of, promised, accepted, repeated}
use playgroundjs_plugin.Bindings.Socket.State.{
  SocketEvent, call_open, call_write, handle_all, answer, new_socket, call_close,
}
use playgroundjs_plugin.Bindings.StreamerHost.{
  add as host_add, stream as host_stream, delete as host_delete, perform_all, perform, Action,
  new_system, act_create, act_add, act_work, act_delete, act_track, act_frame, act_stream, work,
  run_job, create_streamer, call_on_worker_thread, next_id, set_tracked_players, on_frame,
}
use playgroundjs_plugin.Bindings.Streamer.Live.{
  IsIndexed, stream-live, add-IsIndexed, new_streamer-IsIndexed,
}
use playgroundjs_plugin.Bindings.Streamer.{
  delete, StreamerUpdate, stream, Streamer, add, new_streamer, query_iterators, query_ids,
  ids_around, while_loop, round_loop, batch_loop, batch_limit,
}
use playgroundjs_plugin.Common.{
  [], ℕ, map, find_id, List, ◌≡◌, ◌∷◌, some, ◌/◌, elem, ◌+◌, insert_new, arith, length, refl,
  insert_id, erase_key, update_id, false, true,
}

-- A streamer for at most three entities, with four of which one is out of reach.
abbrev busy_streamer : Streamer list_index
busy_streamer = add list_index 4 12 11 0 (
    add list_index 3 11 11 0
      (add list_index 2 900 900 0 (add list_index 1 10 10 0 (new_streamer list_index 3 100))))

abbrev player_at : ℕ → ℕ → ℕ → StreamerUpdate ℕ
player_at x y interior = record {
  playerid = 0;
  position = (x, y, 0);
  interior = interior;
  virtual_world = 0;
}

abbrev players : List (StreamerUpdate ℕ)
players = player_at 10 12 0 ∷ player_at 10 12 7 ∷ []

streamed : stream list_index busy_streamer players ≡ some (1 ∷ 3 ∷ 4 ∷ [])
unfolding stream add new_streamer query_iterators query_ids ids_around while_loop round_loop
    batch_loop batch_limit insert_id insert_new find_id
streamed = refl

stream-IsStreamed_example :
    (ids : List ℕ) × (stream list_index busy_streamer players ≡ some ids)
    × IsStreamed
        (busy_streamer.max_visible)
        (main_world_queries list_index busy_streamer
          (busy_streamer.max_visible / length players)
          players)
        []
        ids
stream-IsStreamed_example = stream-IsStreamed list_index busy_streamer players

busy_streamer-IsIndexed : IsIndexed list_index list_index-laws busy_streamer
busy_streamer-IsIndexed =
    add-IsIndexed list_index list_index-laws 4 12 11 0 _
      (unfold add new_streamer insert_new find_id in refl) tt
      (add-IsIndexed list_index list_index-laws 3 11 11 0 _
        (unfold add new_streamer insert_new find_id in refl) tt
        (add-IsIndexed list_index list_index-laws 2 900 900 0 _
          (unfold add new_streamer insert_new find_id in refl) tt
          (add-IsIndexed list_index list_index-laws 1 10 10 0 _
            (unfold new_streamer find_id in refl) tt
            (new_streamer-IsIndexed list_index list_index-laws 3 100))))

stream-live_example : (p : ℕ × ℕ) × (find_id 3 busy_streamer.entities ≡ some p)
stream-live_example =
    stream-live list_index list_index-laws busy_streamer players (1 ∷ 3 ∷ 4 ∷ []) 3
      busy_streamer-IsIndexed streamed (unfold elem in refl)

abbrev actions : List (Action list_index)
actions =
    act_create 3 100
    ∷ act_add 1 10 10 0
    ∷ act_work
    ∷ act_add 1 20 20 0
    ∷ act_work
    ∷ act_delete 1 1
    ∷ act_track (5 ∷ [])
    ∷ act_frame (λ p. (10, 10, 0)) (λ p. 0) (λ p. 0) 300
    ∷ act_stream 1 7
    ∷ act_work
    ∷ act_work
    ∷ act_work
    ∷ act_work
    ∷ []

abbrev worker_streamer : Streamer list_index
worker_streamer = record {
  max_visible = 3;
  max_distance = 100;
  entities = (2, (20, 20)) ∷ [];
  tree = ((20, 20), 2) ∷ [];
}

worker_found :
    find_id 1 (perform_all list_index actions (new_system list_index 0)).worker.streamers
    ≡ some worker_streamer
unfolding perform_all perform new_system work run_job create_streamer call_on_worker_thread next_id
    insert_id insert_new find_id erase_key update_id elem host_add host_stream host_delete add
    delete new_streamer set_tracked_players on_frame
worker_found = refl

perform_all-IsIndexed_example : IsIndexed list_index list_index-laws worker_streamer
perform_all-IsIndexed_example =
    perform_all-IsIndexed list_index list_index-laws actions 0 1 worker_streamer
      (tt, (tt, (tt, (tt, (tt, (tt, (tt, (tt, (tt, (tt, (tt, (tt, (tt, tt))))))))))))) (omega arith)
      worker_found

abbrev session : List SocketEvent
session =
    call_open 1
    ∷ answer 0 0 false
    ∷ call_write 2
    ∷ call_close 3
    ∷ answer 0 9 true
    ∷ answer 0 0 false
    ∷ call_open 4
    ∷ []

handle_all-settled_example :
    count 2 (map promise_of (handle_all 110 session new_socket).resolved)
      + count 2 (promised (handle_all 110 session new_socket).pending)
    ≡ count 2 (accepted 110 session new_socket) + count 2 (repeated 110 session new_socket)
handle_all-settled_example = handle_all-settled 110 2 session
