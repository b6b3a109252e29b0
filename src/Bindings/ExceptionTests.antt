-- ===== src/Bindings/ExceptionTests.antt =====
-- Exceptions of scripts on concrete inputs, and the theorems at inputs that meet their hypotheses.
use playgroundjs_plugin.Base.StringPiece.{starts_with}
use playgroundjs_plugin.Common.{
  ℕ, List, codes, ◌≡◌, bytes_eq, ◌∷◌, Bytes, [], none, ◌+◌, some, ◌++◌, true, refl,
}
use mathlib.Core.Option.{map as map_option}
use playgroundjs_plugin.Bindings.Exceptions.{
  Message, Attribution, new_handler, flush_message_queue, report, relative_name, resource_of,
  frame_line,
}
use playgroundjs_plugin.Bindings.Exceptions.Queue.{
  PromiseEvent, rejects, handles, unhandled, happen_all, report_all, flush_message_queue-unhandled,
}
use playgroundjs_plugin.Bindings.Exceptions.Attributions.{
  register_every, last_of, register_every-last,
}

abbrev one_digit : ℕ → Bytes
one_digit n = (48 + n) ∷ []

abbrev rejection : Message
rejection = record {
  resource_name = codes "/js/main.js";
  resource_line = 7;
  description = [];
  error = some 1;
  error_text = some (codes "Error: no");
  frames = [];
}

-- The first promise is handled after all, the second one is not.
abbrev some_events : List PromiseEvent
some_events = rejects rejection 1 ∷ rejects rejection 2 ∷ handles 1 ∷ []

reported :
    report one_digit (codes "/js") rejection [] []
    ≡ some (
        codes "========================="
        ∷ codes "main.js:7: Error: no"
        ∷ codes "========================="
        ∷ [])
unfolding report relative_name resource_of starts_with bytes_eq frame_line
reported = refl

flush_message_queue-unhandled_example :
    elim (happen_all one_digit (codes "/js") some_events new_handler) [
      | none ↦ none
      | some after ↦ flush_message_queue one_digit (codes "/js") true after
    ]
    ≡ map_option
        (λ lines. record new_handler {
          written = new_handler.written ++ lines;
          queued_messages = [];
        })
        (report_all one_digit (codes "/js") (unhandled some_events) [] [])
flush_message_queue-unhandled_example =
    flush_message_queue-unhandled one_digit (codes "/js") some_events new_handler refl

abbrev some_attributions : List Attribution
some_attributions =
    record { attributed_error = 1; path = codes "a.js"; line = 3 }
    ∷ record { attributed_error = 2; path = codes "b.js"; line = 4 }
    ∷ []

register_every-last_example :
    (register_every some_attributions new_handler).registered_attribution
    ≡ last_of 101 ([] ++ some_attributions)
register_every-last_example = register_every-last [] some_attributions new_handler refl
