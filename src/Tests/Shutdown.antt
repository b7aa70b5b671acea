-- ===== src/Tests/Shutdown.antt =====
-- A listener that fails, and a server that is cancelled while it does.
use experiment_go.Prelude.{◌≤◌, ◌≡◌, ◌⊎◌, inl, refl, true, false, Option, none, some, [], ◌∷◌}
use experiment_go.Prelude.Errors.{GoError, lit, plain_error, wrap_error}
use experiment_go.HttpApi.Server.{
  listen_result, sending, done, draining, returned, State, initial, stop_listening, send, cancel,
  receive, notice, stop_draining, Steps, here, next,
}
use experiment_go.HttpApi.Server.Shutdown.{IsListenError, IsShutdownError, run_result}
use experiment_go.HttpApi.Server.Liveness.{IsAtRest, CanMove, start, then, run-IsAtRest}

abbrev in_use : GoError
in_use = plain_error (lit "address already in use" ∷ [])

-- ListenAndServe has failed, and Run has returned its error.
abbrev failed : State
failed = record {
  listener = done;
  main = returned (some (wrap_error (lit "listen" ∷ []) in_use));
  channel = none;
  cancelled = false;
  listened = some (some in_use);
  drained = none;
}

abbrev to_failed : Steps initial failed
to_failed =
    next
      (next (next here (stop_listening (some in_use) refl refl))
        (send (listen_result (some in_use)) refl refl refl))
      (receive (listen_result (some in_use)) refl refl refl)

run_result_example :
    ((x : Option GoError) × (failed.listened ≡ some x)
      × IsListenError x (some (wrap_error (lit "listen" ∷ []) in_use))
      × (failed.drained ≡ none))
    ⊎ ((x : Option GoError) × (failed.drained ≡ some x)
        × IsShutdownError x (some (wrap_error (lit "listen" ∷ []) in_use))
        × (failed.cancelled ≡ true))
run_result_example = run_result failed (some (wrap_error (lit "listen" ∷ []) in_use)) to_failed refl

-- The context is cancelled, Run is in Shutdown, and the listener has failed.
abbrev closing : State
closing = record {
  listener = sending (listen_result (some in_use));
  main = draining;
  channel = none;
  cancelled = true;
  listened = some (some in_use);
  drained = none;
}

abbrev to_closing : Steps initial closing
to_closing =
    next (next (next here (cancel refl)) (notice refl refl refl))
      (stop_listening (some in_use) refl refl)

-- Run has returned, and the goroutine is at its send.
abbrev drained_first : State
drained_first = record closing { main = returned none; drained = some none }

run-IsAtRest_example : (1 ≤ 3) × (IsAtRest drained_first ⊎ CanMove drained_first)
run-IsAtRest_example =
    run-IsAtRest closing 1 drained_first to_closing (inl (some in_use, refl))
      (then start (stop_draining none refl refl) tt)
