-- ===== src/Examples/StreamExamples.antt =====
-- The theorems about the log stream, applied.
use tbd_dev.Prelude.{true, none, some, [], ◌∷◌, ◌≡◌, refl}
use tbd_dev.LogStream.{Hook, Payload, log, done, error, idle, connect, deliver, deliver_all}
use tbd_dev.LogStream.Laws.{IsHonest, here, next, reconnect, event, Reach-IsHonest, malformed_done}
use tbd_dev.LogStream.Received.{shown, shown-deliver_all}

abbrev closed_hook : Hook
closed_hook = record { state = idle; source = none }

abbrev open_hook : Hook
open_hook = record {
  state = record { logs = none; status = none; is_streaming = true; error = none };
  source = some "/logs";
}

abbrev first_lines : Payload
first_lines = record { logs = some "step 1"; status = some "building" }

abbrev all_lines : Payload
all_lines = record { logs = some "step 2"; status = some "success" }

Reach-IsHonest_example :
    IsHonest (deliver (log (some first_lines)) (connect (some "/logs") none closed_hook))
Reach-IsHonest_example =
    Reach-IsHonest
      (next (next here (reconnect (some "/logs") none closed_hook))
        (event (log (some first_lines)) (connect (some "/logs") none closed_hook) (λ e. cc)))
      refl

malformed_done_example :
    (deliver_all (done none ∷ log (some all_lines) ∷ []) open_hook
      ≡ record open_hook { source = none })
    × ((deliver_all (done none ∷ log (some all_lines) ∷ []) open_hook).state.is_streaming ≡ true)
malformed_done_example = malformed_done "/logs" open_hook (log (some all_lines) ∷ []) refl refl

shown-deliver_all_example :
    shown (
      deliver_all
        (log (some first_lines) ∷ log none ∷ done (some all_lines) ∷ error true ∷ [])
        open_hook)
    ≡ all_lines
shown-deliver_all_example =
    shown-deliver_all "/logs"
      (log (some first_lines) ∷ log none ∷ done (some all_lines) ∷ error true ∷ []) open_hook refl
