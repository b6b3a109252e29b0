-- ===== src/Lib.antt =====
-- Verification library of the PlaygroundJS plugin: a plugin of the SA-MP server that runs JavaScript
-- and stands between the server's Pawn interpreter and the scripts.
--
-- The parts of the program, and the files that model them:
--   src/playground/base: string pieces. Base.StringPiece has the searches (Search) and the slices
--     (Slices) of string_piece.cc and string_piece.h, on lists of bytes; `npos` is `none`.
--   src/playground/plugin: what talks to the server. Plugin.Trim and Plugin.Lines are the white space
--     and the loop over lines that both parsers share; Plugin.CallbackParser is callback_parser.cc,
--     function by function (Parse, ParseLine, ParseAnnotations, ParseArgument, Find), with its printer
--     in Print and its round trips in RoundTrip and Annotated (Marks); Plugin.NativeParser is
--     native_parser.cc, with the table of natives in Table; Plugin.NativeFunctions is the part of
--     native_function_manager.cc that keeps what `amx_Register` is called with, Plugin.FakeAmx the
--     cells of the heap of fake_amx.cc, and Plugin.NativeCalls its CallFunction (Filled, Restored).
--     Plugin.Values is arguments.cc and Plugin.Amx pawn_helpers.cc; Plugin.CallbackHook is
--     callback_hook.cc, with what it reads for the arguments of a callback in Extraction and when it
--     answers a call of the server in Interception. Plugin.CallbackManager is callback_manager.cc, with
--     the pushes of CallPublic in Marshalling, its cache in IndexCache, and what any call of it leaves
--     behind in Releases, Passed and Released. Plugin.Controller is
--     plugin_controller.cc (Output, Minimized), and Plugin.NativeParameters native_parameters.cc.
--   src/playground/bindings: what scripts see. Bindings.Events is event.cc, from the properties of an
--     event (Properties) to the cache of its types (TypeCache). Bindings.GlobalScope is the events and
--     listeners of global_scope.cc and what playground_controller.cc does with a callback: Listeners is
--     its abstract table, Runs the loop over the listeners and Dispatch the answer. Bindings.ProvidedNatives is
--     provided_natives.cc (Answers, Calls), Bindings.Promise promise.cc, and Bindings.Timers
--     timer_queue.cc, with `std::priority_queue` as a record of operations and laws and a list that
--     satisfies them (SortedQueue). Bindings.Exceptions is exception_handler.cc (Queue, Attributions), and
--     Bindings.PawnInvoke the signatures of pawn_invoke.cc (Signatures).
--   src/playground/bindings/modules/streamer: Bindings.Streamer is streamer.cc, with the R*-tree of
--     Boost.Geometry as a record of operations and laws (Index) and a list that satisfies them
--     (ListIndex); Bindings.StreamerHost is streamer_host.cc and streamer_worker.cc: two threads, whose
--     steps interleave, around a queue of jobs.
--   src/playground/bindings/modules/socket: Bindings.Socket.State is socket.cc (Promises, Settled),
--     and Bindings.Socket.Threads the writes of tcp_socket.cc and web_socket.cc, which are the same, as
--     single steps of the thread that calls Write and of the one that calls OnWrite. WriteQueue and Fifo
--     are an abstract engine in which both run whole.
--
-- How they interact: the hook is called by the server for every public function, and tells the
-- controller, which passes a callback on to the scope, whose answer decides whether the server goes on.
-- Scripts call back through the controller: CallFunction makes a public function a call of the callback
-- manager, under an ignore that the hook respects. The gamemode calls the natives that the parser
-- declares, which end in ProvidedNatives.
--
-- State is a record and an operation a function on it; what an object does to the outside (exceptions,
-- promises, callbacks posted to another thread) is kept in lists of that record. A callback or a
-- promise is known by a number. Code outside the repository is a parameter: the tree of the streamer
-- and the arithmetic of its coordinates, the functions of the server that read a player's position,
-- the error code of a time-out, the functions of scripts (what a listener does to an event and to the
-- listeners) and of the server, how a number is printed, and
-- the conversion to the ANSI code page.
--
-- Loops with no bound of their own run on fuel: the loop over the lines of a file on the length of the
-- text and one more, the loop over arguments on the length of their text and one more, and the loop of
-- Stream on the number of ids left to give and of iterators; the loop of Output on the length of the
-- message and one more, the loop of CallFunction over the parameters on the length of the format, and the
-- loop of the timers on the size of the queue. That this is enough is proved: the results say that these
-- functions return, or what they have done to the last byte, parameter and timer.
--
-- The threads of an engine share its flag and its queue without a lock. The model takes each access as
-- one step: what two accesses at the same moment do is not modelled. Nor is what follows when a listener
-- writes to the list that DispatchEvent runs over, for which the dispatch gives `none`. What
-- ParseSignature writes behind its buffer is recorded as such.
--
-- Ids are 32-bit and wrap round in the model (`next_id`); the theorem on the streamer's host asks for
-- fewer steps than would make them wrap. Coordinates are left abstract.
--
-- A CHECK or DCHECK that fails ends the process, in release builds too: such a call gives `none`, and the hook tells
-- that the process ended. What
-- v8 and the AMX do is a parameter of the operations, or a list of what they are asked. Times are whole
-- milliseconds.
--
-- Not modelled: the bindings to v8 (runtime, modules for scripts, the checks of what scripts pass),
-- the calls of PawnInvoke, the console, the MySQL client, tracing, the opening and closing of
-- connections by the socket engines, reading of files, start and end of the plugin, and the copies of other projects
-- (gtest, subhook, the AMX SDK).
pub mod Common
pub mod Base
pub mod Plugin
pub mod Bindings
