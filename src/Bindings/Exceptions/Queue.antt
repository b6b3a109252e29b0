-- ===== src/Bindings/Exceptions/Queue.antt =====
-- Which rejected promises are reported when the queue is flushed.
use mathlib.Core.Option.{map as map_option}
use playgroundjs_plugin.Common.{
  ℕ, List, Bool, Bytes, ◌≡◌, [], ◌∷◌, if◌then◌else◌, ◌++◌, Option, some, ap, arith, false, true,
  ◌==◌, none, refl, ◌||◌, sym, append-nil, ◌∙◌, append_assoc, ap₂,
}
use playgroundjs_plugin.Bindings.Exceptions.{
  Message, ExceptionHandler, on_message, revoke_queued_messages, erase_promise, flush_loop,
  flush_message_queue, report, Attribution,
}

-- What happens to promises: a rejection with a message, or a handler added later.
pub data PromiseEvent : Type 0 where
  rejects : (message : Message) (promise : ℕ) → PromiseEvent
  handles : (promise : ℕ) → PromiseEvent

-- Whether a handler is added to the promise.
abbrev pub handled_in : ℕ → List PromiseEvent → Bool
handled_in promise [] = false
handled_in promise (rejects message other ∷ events) = handled_in promise events
handled_in promise (handles other ∷ events) = other == promise || handled_in promise events

-- The rejections to which no handler is added afterwards, in order.
abbrev pub unhandled : List PromiseEvent → List (Message × ℕ)
unhandled [] = []
unhandled (rejects message promise ∷ events) =
    if handled_in promise events then unhandled events else (message, promise) ∷ unhandled events
unhandled (handles promise ∷ events) = unhandled events

-- Those of a queue to which no handler is added.
abbrev pub still_unhandled : List PromiseEvent → List (Message × ℕ) → List (Message × ℕ)
still_unhandled events [] = []
still_unhandled events (queued ∷ rest) =
    if handled_in queued.1 events
    then still_unhandled events rest
    else queued ∷ still_unhandled events rest

still_unhandled-append :
    (events : List PromiseEvent) (xs ys : List (Message × ℕ))
    → still_unhandled events (xs ++ ys) ≡ still_unhandled events xs ++ still_unhandled events ys
still_unhandled-append events [] ys = refl
still_unhandled-append events (x ∷ xs) ys = ground (arith, still_unhandled-append events xs ys)

still_unhandled-erase :
    (events : List PromiseEvent) (promise : ℕ) (queue : List (Message × ℕ))
    → still_unhandled events (erase_promise promise queue)
      ≡ still_unhandled (handles promise ∷ events) queue
unfolding erase_promise
still_unhandled-erase events promise [] = refl
still_unhandled-erase events promise (queued ∷ rest) =
    ground (arith, still_unhandled-erase events promise rest)

still_unhandled-none : (queue : List (Message × ℕ)) → still_unhandled [] queue ≡ queue
still_unhandled-none [] = refl
still_unhandled-none (queued ∷ rest) = ap (◌∷◌ queued) (still_unhandled-none rest)

still_unhandled-rejects :
    (message : Message) (promise : ℕ) (events : List PromiseEvent) (queue : List (Message × ℕ))
    → still_unhandled (rejects message promise ∷ events) queue ≡ still_unhandled events queue
still_unhandled-rejects message promise events [] = refl
still_unhandled-rejects message promise events (queued ∷ rest) =
    ap (λ l. if handled_in queued.1 events then l else queued ∷ l)
      (still_unhandled-rejects message promise events rest)

unhandled-rejects :
    (message : Message) (promise : ℕ) (events : List PromiseEvent)
    → still_unhandled events ((message, promise) ∷ []) ++ unhandled events
      ≡ unhandled (rejects message promise ∷ events)
unhandled-rejects message promise events = ground arith

module _ (to_string : ℕ → Bytes) (source_directory : Bytes) where
  abbrev pub happen : PromiseEvent → ExceptionHandler → Option ExceptionHandler
  happen (rejects message promise) h =
      on_message to_string source_directory true message (some promise) h
  happen (handles promise) h = some (revoke_queued_messages promise h)

  abbrev pub happen_all : List PromiseEvent → ExceptionHandler → Option ExceptionHandler
  happen_all [] h = some h
  happen_all (event ∷ events) h = elim (happen event h) [
    | none ↦ none
    | some next ↦ happen_all events next
  ]

  -- The handler with other messages queued.
  abbrev pub with_queue : List (Message × ℕ) → ExceptionHandler → ExceptionHandler
  with_queue queue h = record h { queued_messages = queue }

  happen_all-queue :
      (events : List PromiseEvent) (h : ExceptionHandler)
      → happen_all events h
        ≡ some (with_queue (still_unhandled events h.queued_messages ++ unhandled events) h)
  unfolding on_message revoke_queued_messages
  happen_all-queue [] h =
      ap (λ q. some (with_queue q h))
        (sym (
          append-nil (still_unhandled [] h.queued_messages)
          ∙ still_unhandled-none h.queued_messages))
  happen_all-queue (rejects message promise ∷ events) h =
      happen_all-queue events (with_queue (h.queued_messages ++ ((message, promise) ∷ [])) h)
      ∙ ap (λ q. some (with_queue q h))
          (ap (λ q. q ++ unhandled events)
              (still_unhandled-append events h.queued_messages ((message, promise) ∷ []))
            ∙ append_assoc (still_unhandled events h.queued_messages)
                (still_unhandled events ((message, promise) ∷ [])) (unhandled events)
            ∙ ap₂ (◌++◌) (sym (still_unhandled-rejects message promise events h.queued_messages))
                (unhandled-rejects message promise events))
  happen_all-queue (handles promise ∷ events) h =
      happen_all-queue events (with_queue (erase_promise promise h.queued_messages) h)
      ∙ ap (λ q. some (with_queue (q ++ unhandled events) h))
          (still_unhandled-erase events promise h.queued_messages)

  -- What is written for several messages, if no exception escapes.
  abbrev pub report_all : List (Message × ℕ) → List Attribution → List Bytes → Option (List Bytes)
  report_all [] attributions sources = some []
  report_all (queued ∷ rest) attributions sources =
      elim (report to_string source_directory queued.0 attributions sources) [
        | none ↦ none
        | some lines ↦ map_option (λ behind. lines ++ behind) (report_all rest attributions sources)
      ]

  with_more_lines :
      (h : ExceptionHandler) (lines : List Bytes) (behind : Option (List Bytes))
      → map_option (λ l. record h { written = (h.written ++ lines) ++ l }) behind
        ≡ map_option
            (λ l. record h { written = h.written ++ l })
            (map_option (λ l. lines ++ l) behind)
  with_more_lines h lines none = refl
  with_more_lines h lines (some l) =
      ap (λ w. some (record h { written = w })) (append_assoc h.written lines l)

  -- The handler that has written these lines, if there are any.
  abbrev wrote : ExceptionHandler → Option (List Bytes) → Option ExceptionHandler
  wrote h reported = elim reported [
    | none ↦ none
    | some lines ↦ some (record h { written = h.written ++ lines })
  ]

  report_step :
      (rest : List (Message × ℕ)) (h : ExceptionHandler) (reported : Option (List Bytes))
      → ((g : ExceptionHandler)
          → flush_loop to_string source_directory true rest g
            ≡ map_option
                (λ lines. record g { written = g.written ++ lines })
                (report_all rest g.registered_attribution g.exception_sources))
      → elim (wrote h reported) [
        | none ↦ none
        | some next ↦ flush_loop to_string source_directory true rest next
      ]
        ≡ map_option
            (λ lines. record h { written = h.written ++ lines })
            (elim reported [
              | none ↦ none
              | some lines ↦
                  map_option
                    (λ behind. lines ++ behind)
                    (report_all rest h.registered_attribution h.exception_sources)
            ])
  report_step rest h none ih = refl
  report_step rest h (some lines) ih =
      ih (record h { written = h.written ++ lines })
      ∙ with_more_lines h lines (report_all rest h.registered_attribution h.exception_sources)

  flush_loop-lines :
      (queue : List (Message × ℕ)) (h : ExceptionHandler)
      → flush_loop to_string source_directory true queue h
        ≡ map_option
            (λ lines. record h { written = h.written ++ lines })
            (report_all queue h.registered_attribution h.exception_sources)
  unfolding flush_loop on_message
  flush_loop-lines [] h = ap (λ l. some (record h { written = l })) (sym (append-nil h.written))
  flush_loop-lines (queued ∷ rest) h =
      report_step rest h
        (report to_string source_directory queued.0 h.registered_attribution h.exception_sources)
        (flush_loop-lines rest)

  emptied :
      (h : ExceptionHandler) (queue : List (Message × ℕ)) (lines : Option (List Bytes))
      → elim (map_option
          (λ l. record h { queued_messages = queue; written = h.written ++ l })
          lines) [ none ↦ none | some flushed ↦ some (record flushed { queued_messages = [] }) ]
        ≡ map_option (λ l. record h { written = h.written ++ l; queued_messages = [] }) lines
  emptied h queue none = refl
  emptied h queue (some l) = refl

  -- Whatever promises are rejected and handled, from an empty queue on, a flush behind them writes
  -- the report of each rejection to which no handler was added afterwards, once and in the order of
  -- the rejections, and leaves the queue empty; an exception escapes exactly if it does for one of
  -- these reports. A context is entered all the time.
  pub flush_message_queue-unhandled :
      (events : List PromiseEvent) (h : ExceptionHandler)
      → h.queued_messages ≡ []
      → elim (happen_all events h) [
        | none ↦ none
        | some after ↦ flush_message_queue to_string source_directory true after
      ]
        ≡ map_option
            (λ lines. record h { written = h.written ++ lines; queued_messages = [] })
            (report_all (unhandled events) h.registered_attribution h.exception_sources)
  unfolding flush_message_queue
  flush_message_queue-unhandled events h empty =
      ap
        (λ o. elim o [
          | none ↦ none
          | some after ↦ flush_message_queue to_string source_directory true after
        ])
        (happen_all-queue events h
          ∙ ap (λ q. some (with_queue (still_unhandled events q ++ unhandled events) h)) empty)
      ∙ ap
          (λ o. elim o [
            | none ↦ none
            | some flushed ↦ some (record flushed { queued_messages = [] })
          ])
          (flush_loop-lines (unhandled events) (with_queue (unhandled events) h))
      ∙ emptied h (unhandled events)
          (report_all (unhandled events) h.registered_attribution h.exception_sources)
