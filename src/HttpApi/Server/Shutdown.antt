-- ===== src/HttpApi/Server/Shutdown.antt =====
-- What Run returns.
use experiment_go.Prelude.{
  ◌≡◌, ◌⊎◌, inl, inr, refl, true, false, Bool-cases, Option, none, some, [], ◌∷◌, arith,
}
use experiment_go.Prelude.Errors.{GoError, lit, is_error, server_closed, wrap_error}
use experiment_go.HttpApi.Server.{
  listen_result, shutdown_result, Listener, listening, sending, done, Main, selecting, draining,
  returned, State, initial, Step, stop_listening, send, cancel, receive, notice, stop_draining,
  Steps, here, next,
}

-- Where the result of the goroutine is.
abbrev pub Delivered : Listener → Option (Option GoError) → Option (Option GoError) → Type 0
Delivered listening channel listened = (channel ≡ none) × (listened ≡ none)
Delivered (sending e) channel listened =
    (channel ≡ none) × ((x : Option GoError) × (listened ≡ some x) × (e ≡ listen_result x))
Delivered done channel listened =
    (x : Option GoError) × (listened ≡ some x)
    × ((channel ≡ none) ⊎ (channel ≡ some (listen_result x)))

-- While Run waits, a result that was sent is still in the channel.
abbrev pub Kept : Listener → Option (Option GoError) → Type 0
Kept done channel = (e : Option GoError) × (channel ≡ some e)
Kept _ channel = Unit

-- Why Run is where it is.
abbrev pub Explained : Main → State → Type 0
Explained selecting s = (s.drained ≡ none) × Kept s.listener s.channel
Explained draining s = (s.drained ≡ none) × (s.cancelled ≡ true)
Explained (returned r) s =
    ((x : Option GoError) × (s.listened ≡ some x) × (r ≡ listen_result x) × (s.drained ≡ none))
    ⊎ ((x : Option GoError) × (s.drained ≡ some x) × (r ≡ shutdown_result x) × (s.cancelled ≡ true))

pub record Inv (s : State) : Type 0 where
  pub delivered : Delivered s.listener s.channel s.listened
  pub explained : Explained s.main s

pub initial-Inv : Inv initial
initial-Inv = record { delivered = (refl, refl); explained = (refl, tt) }

Step-Inv : {s t : State} → Step s t → Inv s → Inv t
Step-Inv {s} (stop_listening e l q) v = rw q (ground arith)
Step-Inv {s} (send e l room q) v = rw q (ground arith)
Step-Inv {s} (cancel q) v = rw q (ground arith)
Step-Inv {s} (receive e m full q) v = rw q (ground arith)
Step-Inv {s} (notice m on q) v = rw q (ground arith)
Step-Inv {s} (stop_draining e m q) v = rw q (ground arith)

pub Steps-Inv : {s t : State} → Inv s → Steps s t → Inv t
Steps-Inv v here = v
Steps-Inv v (next run step) = Step-Inv step (Steps-Inv v run)

-- The result of the goroutine, by what ListenAndServe returned.
abbrev pub IsListenError : Option GoError → Option GoError → Type 0
IsListenError none r = r ≡ none
IsListenError (some e) r =
    ((is_error e server_closed ≡ true) × (r ≡ none))
    ⊎ ((is_error e server_closed ≡ false) × (r ≡ some (wrap_error (lit "listen" ∷ []) e)))

-- The result of Run, by what Shutdown returned.
abbrev pub IsShutdownError : Option GoError → Option GoError → Type 0
IsShutdownError none r = r ≡ none
IsShutdownError (some e) r = r ≡ some (wrap_error (lit "graceful shutdown" ∷ []) e)

listen_result-IsListenError : (x : Option GoError) → IsListenError x (listen_result x)
listen_result-IsListenError none = refl
listen_result-IsListenError (some e) = elim (Bool-cases (is_error e server_closed)) [
  | inl closed ↦ inl (closed, rw closed refl)
  | inr failed ↦ inr (failed, rw failed refl)
]

shutdown_result-IsShutdownError : (x : Option GoError) → IsShutdownError x (shutdown_result x)
shutdown_result-IsShutdownError none = refl
shutdown_result-IsShutdownError (some e) = refl

-- What a result of Run says of the state it returned in.
abbrev pub IsResult : Option GoError → State → Type 0
IsResult r s =
    ((x : Option GoError) × (s.listened ≡ some x) × IsListenError x r × (s.drained ≡ none))
    ⊎ ((x : Option GoError) × (s.drained ≡ some x) × IsShutdownError x r × (s.cancelled ≡ true))

Explained-IsResult : (r : Option GoError) (s : State) → Explained (returned r) s → IsResult r s
Explained-IsResult r s (inl (x, ended, result, waiting)) =
    inl (x, ended, rw result (listen_result-IsListenError x), waiting)
Explained-IsResult r s (inr (x, ended, result, on)) =
    inr (x, ended, rw result (shutdown_result-IsShutdownError x), on)

-- In every interleaving, if Run has returned, then one of two things holds. Either ListenAndServe has
-- returned by itself and Shutdown has not: then the result is nil if ListenAndServe returned nil or
-- an error that is http.ErrServerClosed, and every other error of it is returned, wrapped by "listen".
-- Or the context was cancelled and Shutdown has returned: then the result is nil if Shutdown returned
-- nil, and its error otherwise, wrapped by "graceful shutdown".
pub run_result :
    (s : State) (r : Option GoError)
    → Steps initial s
    → s.main ≡ returned r
    → ((x : Option GoError) × (s.listened ≡ some x) × IsListenError x r × (s.drained ≡ none))
      ⊎ ((x : Option GoError) × (s.drained ≡ some x) × IsShutdownError x r × (s.cancelled ≡ true))
run_result s r run m = Explained-IsResult r s (rw m at (Steps-Inv initial-Inv run).explained)
