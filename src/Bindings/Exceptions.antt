-- ===== src/Bindings/Exceptions.antt =====
-- src/playground/bindings/exception_handler.cc: exceptions of scripts, and promises that are
-- rejected with no handler. Errors and promises are known by numbers; what a message of v8 says is
-- a record. How a number is printed and the directory of the scripts are parameters.
pub mod Queue
pub mod Attributions
use playgroundjs_plugin.Base.StringPiece.{starts_with}
use playgroundjs_plugin.Common.{
  ℕ, Bytes, Bool, [], ◌++◌, codes, List, Option, drop, ◌∷◌, ltb, some, if◌then◌else◌, none, length,
  ◌==◌, map, bytes_eq, leb, not, ◌+◌, ◌||◌,
}

pub record StackFrame : Type 0 where
  pub function_name : Option Bytes
  pub file_name : Bytes
  pub line_number : ℕ

-- A message with its error: the number of the error, if there is one, and its text, if it has one.
pub record Message : Type 0 where
  pub resource_name : Bytes
  pub resource_line : ℕ
  pub description : Bytes
  pub error : Option ℕ
  pub error_text : Option Bytes
  pub frames : List StackFrame

-- `Attribution`
pub record Attribution : Type 0 where
  pub attributed_error : ℕ
  pub path : Bytes
  pub line : ℕ

-- `ExceptionHandler`, with `g_exception_sources_` and `g_attribution_stack_`, the top first.
-- `queued_messages` holds each message with its promise, and `written` what the delegate is given.
pub record ExceptionHandler : Type 0 where
  pub registered_attribution : List Attribution
  pub queued_messages : List (Message × ℕ)
  pub exception_sources : List Bytes
  pub attribution_stack : List (Bytes × ℕ)
  pub written : List Bytes

abbrev pub new_handler : ExceptionHandler
new_handler = record {
  registered_attribution = [];
  queued_messages = [];
  exception_sources = [];
  attribution_stack = [];
  written = [];
}

-- `RegisterAttributedError`
unfoldable pub drop_oldest : List Attribution → List Attribution
drop_oldest attributions =
    if ltb 100 (length attributions) then drop 1 attributions else attributions

unfoldable pub register_attributed_error : Attribution → ExceptionHandler → ExceptionHandler
register_attributed_error attribution h = record h {
  registered_attribution = drop_oldest h.registered_attribution ++ (attribution ∷ []);
}

-- `RegisterError`
unfoldable pub register_error : ℕ → ExceptionHandler → ExceptionHandler
register_error error h = elim h.attribution_stack [
  | [] ↦ h
  | top ∷ below ↦
      register_attributed_error (record { attributed_error = error; path = top.0; line = top.1 }) h
]

-- The constructors and destructors of `ScopedExceptionAttribution` and `ScopedExceptionSource`.
unfoldable pub enter_attribution : Bytes → ℕ → ExceptionHandler → ExceptionHandler
enter_attribution path line h = record h { attribution_stack = (path, line) ∷ h.attribution_stack }

unfoldable pub leave_attribution : ExceptionHandler → ExceptionHandler
leave_attribution h = record h { attribution_stack = drop 1 h.attribution_stack }

unfoldable pub enter_source : Bytes → ExceptionHandler → ExceptionHandler
enter_source source h = record h { exception_sources = source ∷ h.exception_sources }

unfoldable pub leave_source : ExceptionHandler → ExceptionHandler
leave_source h = record h { exception_sources = drop 1 h.exception_sources }

-- The loop over the attributions: the first one of the error.
unfoldable pub find_attribution : ℕ → List Attribution → Option Attribution
find_attribution error [] = none
find_attribution error (attribution ∷ rest) =
    let behind = find_attribution error rest in
    if attribution.attributed_error == error then some attribution else behind

-- Where the message comes from, corrected if v8 does not know.
unfoldable pub resource_of : Message → List Attribution → Bytes × ℕ
resource_of message attributions =
    if bytes_eq message.resource_name (codes "undefined") || message.resource_line == 0
    then elim message.error [
      | none ↦ (message.resource_name, message.resource_line)
      | some error ↦ elim (find_attribution error attributions) [
        | none ↦ (message.resource_name, message.resource_line)
        | some attribution ↦ (attribution.path, attribution.line)
      ]
    ]
    else (message.resource_name, message.resource_line)

abbrev separator : Bytes
separator = codes "========================="

module _ (to_string : ℕ → Bytes) (source_directory : Bytes) where
  -- The name without the directory and the separator behind it; `none` where `substr` throws,
  -- because the name is the directory itself.
  unfoldable pub relative_name : Bytes → Option Bytes
  relative_name resource_name =
      if starts_with resource_name source_directory
      then if leb (length resource_name) (length source_directory)
        then none
        else some (drop (length source_directory + 1) resource_name)
      else some resource_name

  unfoldable pub frame_line : StackFrame → Bytes
  frame_line frame =
      codes "    in "
      ++ elim frame.function_name [ none ↦ codes "`anonymous function`" | some name ↦ name ]
      ++ codes " ("
      ++ frame.file_name
      ++ codes ":"
      ++ to_string frame.line_number
      ++ codes ")"

  abbrev description_lines : Message → List Bytes
  description_lines message =
      if ltb 0 (length message.description)
      then (codes "JavaScript exception: " ++ message.description) ∷ codes " " ∷ []
      else []

  abbrev error_lines : Bytes → Message → List Bytes
  error_lines prefix message = elim message.error_text [
    | none ↦ []
    | some text ↦ (prefix ++ text) ∷ []
  ]

  abbrev source_lines : List Bytes → List Bytes
  source_lines [] = []
  source_lines (source ∷ below) = (codes "    from " ++ source) ∷ []

  -- What `OnMessage` writes for a message that it does not queue: `none` where `substr` throws, with
  -- the separator, which is written before, left out.
  unfoldable pub report : Message → List Attribution → List Bytes → Option (List Bytes)
  report message attributions sources =
      let resource = resource_of message attributions in
      elim (relative_name (resource.0)) [
        | none ↦ none
        | some name ↦
            (let prefix = name ++ codes ":" ++ to_string resource.1 ++ codes ": " in
              some (
                (separator ∷ description_lines message)
                ++ (error_lines prefix message
                    ++ (map frame_line message.frames
                        ++ (source_lines sources ++ (separator ∷ []))))))
      ]

  -- `OnMessage`, with whether a context is entered, and the promise if one is given. `none` where
  -- an exception escapes.
  unfoldable pub on_message : Bool → Message → Option ℕ → ExceptionHandler → Option ExceptionHandler
  on_message entered message promise h = if not entered then some h else elim promise [
    | some id ↦ some (record h { queued_messages = h.queued_messages ++ ((message, id) ∷ []) })
    | none ↦ elim (report message h.registered_attribution h.exception_sources) [
      | none ↦ none
      | some lines ↦ some (record h { written = h.written ++ lines })
    ]
  ]

  -- The loop of `FlushMessageQueue`.
  unfoldable pub flush_loop : Bool → List (Message × ℕ) → ExceptionHandler → Option ExceptionHandler
  flush_loop entered [] h = some h
  flush_loop entered (queued ∷ rest) h = elim (on_message entered queued.0 none h) [
    | none ↦ none
    | some reported ↦ flush_loop entered rest reported
  ]

  -- `FlushMessageQueue`
  unfoldable pub flush_message_queue : Bool → ExceptionHandler → Option ExceptionHandler
  flush_message_queue entered h = elim (flush_loop entered h.queued_messages h) [
    | none ↦ none
    | some flushed ↦ some (record flushed { queued_messages = [] })
  ]

-- The loop of `RevokeQueuedMessages`.
unfoldable pub erase_promise : ℕ → List (Message × ℕ) → List (Message × ℕ)
erase_promise promise [] = []
erase_promise promise (queued ∷ rest) =
    let behind = erase_promise promise rest in
    if promise == queued.1 then behind else queued ∷ behind

-- `RevokeQueuedMessages`
unfoldable pub revoke_queued_messages : ℕ → ExceptionHandler → ExceptionHandler
revoke_queued_messages promise h = record h {
  queued_messages = erase_promise promise h.queued_messages;
}

-- `HasQueuedMessages`
unfoldable pub has_queued_messages : ExceptionHandler → Bool
has_queued_messages h = ltb 0 (length h.queued_messages)
