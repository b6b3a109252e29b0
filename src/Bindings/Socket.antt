-- ===== src/Bindings/Socket.antt =====
-- src/playground/bindings/modules/socket: the state machine of a socket, and the queue of writes of
-- its engines.
pub mod WriteQueue
pub mod Fifo
pub mod Threads
pub mod State
pub mod Promises
pub mod Settled
