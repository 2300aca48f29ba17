-- ===== src/Shared/LogBuffer/Tests.antt =====
-- shared/src/log_buffer.rs on a short history.
use npt.Prelude.{ℕ, max, ◌≡◌, refl, List, [], ◌∷◌, none, some, true}
use npt.Shared.LogBuffer.{
  LogEntry, info, error, new, new_with_file, add_entry, get_entries, clear, format_event,
  level_color, is_empty,
}
use npt.Shared.LogBuffer.History.{
  Op, add, wipe, run, since_clear, logged, last, get_entries-run, file-run,
}
use npt.Shared.LogBuffer.Message.{quote, debug_field, str_field, visit, record_fields}
use npt.Shared.LogBuffer.Message.{visit_panics}

abbrev entry : ℕ → LogEntry
entry n = record { timestamp = n; level = info; target = []; message = n ∷ [] }

abbrev history : List Op
history = add (entry 1) ∷ wipe ∷ add (entry 2) ∷ add (entry 3) ∷ add (entry 4) ∷ []

history_kept : get_entries (run history (new 2)) ≡ entry 3 ∷ entry 4 ∷ []
unfolding get_entries new add_entry clear
history_kept = refl

get_entries-run_example :
    get_entries (run history (new 2)) ≡ last (max 2 1) (since_clear [] history)
get_entries-run_example = get_entries-run 2 history

file-run_example :
    (run history (new_with_file 2 true)).file_sender
    ≡ some (record { sent = logged history; receiving = true })
file-run_example = file-run 2 history

formatted :
    (format_event 5 error []
      (104 ∷ [])
      (record { buffer = new 1; suppress_writer_output = true })).1
    ≡ []
unfolding format_event
formatted = refl

colored : level_color error ≡ (255, 0, 0)
unfolding level_color
colored = refl

emptied : is_empty (clear (add_entry (entry 1) (new 3))) ≡ true
unfolding is_empty clear
emptied = refl

fields_recorded :
    record_fields
      (str_field true (1 ∷ []) ∷ debug_field true (quote ∷ 7 ∷ quote ∷ []) ∷ [])
      (some [])
    ≡ some (7 ∷ [])
unfolding record_fields visit
fields_recorded = refl

visit_panics_example :
    (visit (debug_field true (quote ∷ [])) [] ≡ none
      → debug_field true (quote ∷ []) ≡ debug_field true (quote ∷ []))
    × (debug_field true (quote ∷ []) ≡ debug_field true (quote ∷ [])
        → visit (debug_field true (quote ∷ [])) [] ≡ none)
visit_panics_example = visit_panics (debug_field true (quote ∷ [])) []
