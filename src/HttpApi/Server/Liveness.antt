-- ===== src/HttpApi/Server/Liveness.antt =====
-- That Run and its goroutine end.
use experiment_go.Prelude.{
  ℕ, zero, suc, ◌+◌, ◌≤◌, ◌≡◌, ◌⊎◌, inl, inr, refl, ap, true, Option, none, some, arith,
}
use experiment_go.Prelude.Errors.{GoError}
use experiment_go.HttpApi.Server.{
  Listener, listening, sending, done, Main, selecting, draining, returned, State, initial, Step,
  stop_listening, send, cancel, receive, notice, stop_draining, Steps, next,
}
use experiment_go.HttpApi.Server.Shutdown.{Delivered, Explained, Inv, initial-Inv, Steps-Inv}

-- The steps of Run and its goroutine. Those of the environment are the end of ListenAndServe and the
-- cancellation of the context; Shutdown is counted as a step of Run, since its context has a timeout.
abbrev pub IsOwn : {s t : State} → Step s t → Type 0
IsOwn (stop_listening e l q) = ⊥
IsOwn (cancel q) = ⊥
IsOwn (send e l room q) = Unit
IsOwn (receive e m full q) = Unit
IsOwn (notice m on q) = Unit
IsOwn (stop_draining e m q) = Unit

-- So many own steps, one after the other.
pub data OwnSteps (s : State) : ℕ → State → Type 0 where
  start : OwnSteps s zero s
  then :
      {n : ℕ} {t u : State} → OwnSteps s n t → (step : Step t u) → IsOwn step → OwnSteps s (suc n) u

-- Something has happened that Run waits for.
abbrev pub IsDue : State → Type 0
IsDue s = ((x : Option GoError) × (s.listened ≡ some x)) ⊎ (s.cancelled ≡ true)

-- Run has returned, and the goroutine is not held up at its send.
abbrev pub IsAtRest : State → Type 0
IsAtRest s =
    ((r : Option GoError) × (s.main ≡ returned r))
    × ((s.listener ≡ listening) ⊎ (s.listener ≡ done))

abbrev pub CanMove : State → Type 0
CanMove s = (t : State) × (step : Step s t) × IsOwn step

-- The own steps that are left at most.
abbrev left_listener : Listener → ℕ
left_listener (sending e) = 1
left_listener _ = 0

abbrev left_main : Main → ℕ
left_main selecting = 2
left_main draining = 1
left_main (returned r) = 0

abbrev left : State → ℕ
left s = left_listener s.listener + left_main s.main

left_listener_le : (l : Listener) → left_listener l ≤ 1
left_listener_le listening = omega arith
left_listener_le (sending e) = omega arith
left_listener_le done = omega arith

left_main_le : (m : Main) → left_main m ≤ 2
left_main_le selecting = omega arith
left_main_le draining = omega arith
left_main_le (returned r) = omega arith

step-left : {s t : State} (step : Step s t) → IsOwn step → left t + 1 ≤ left s
step-left (stop_listening e l q) own = absurd own
step-left (cancel q) own = absurd own
step-left (send e l room q) own = rw (q, ap left_listener l) (omega arith)
step-left (receive e m full q) own = rw (q, ap left_main m) (omega arith)
step-left (notice m on q) own = rw (q, ap left_main m) (omega arith)
step-left (stop_draining e m q) own = rw (q, ap left_main m) (omega arith)

OwnSteps-left : {s t : State} {n : ℕ} → OwnSteps s n t → n + left t ≤ left s
OwnSteps-left start = omega arith
OwnSteps-left (then run step own) = omega (arith, OwnSteps-left run, step-left step own)

step-IsDue : {s t : State} (step : Step s t) → IsOwn step → IsDue s → IsDue t
step-IsDue (stop_listening e l q) own due = absurd own
step-IsDue (cancel q) own due = absurd own
step-IsDue (send e l room q) own due = rw q due
step-IsDue (receive e m full q) own due = rw q due
step-IsDue (notice m on q) own due = rw q due
step-IsDue (stop_draining e m q) own due = rw q due

OwnSteps-IsDue : {s t : State} {n : ℕ} → OwnSteps s n t → IsDue s → IsDue t
OwnSteps-IsDue start due = due
OwnSteps-IsDue (then run step own) due = step-IsDue step own (OwnSteps-IsDue run due)

OwnSteps-Steps : {s t : State} {n : ℕ} → Steps initial s → OwnSteps s n t → Steps initial t
OwnSteps-Steps run start = run
OwnSteps-Steps run (then own step _) = next (OwnSteps-Steps run own) step

-- What can be done at a state, by where the goroutine and Run are.
module _ (s : State) where
  abbrev Goes : Type 0
  Goes = IsAtRest s ⊎ CanMove s

  sends : (e : Option GoError) → s.listener ≡ sending e → s.channel ≡ none → Goes
  sends e l room = inr (record s { listener = done; channel = some e }, send e l room refl, tt)

  drains : s.main ≡ draining → Goes
  drains m = inr (_, stop_draining none m refl, tt)

  receives : (e : Option GoError) → s.main ≡ selecting → s.channel ≡ some e → Goes
  receives e m full = inr (_, receive e m full refl, tt)

  notices : s.main ≡ selecting → s.cancelled ≡ true → Goes
  notices m on = inr (_, notice m on refl, tt)

  goes :
      (l : Listener) (m : Main)
      → s.listener ≡ l
      → s.main ≡ m
      → Delivered l s.channel s.listened
      → Explained m s
      → IsDue s
      → Goes
  goes (sending e) m l main d x due = sends e l d.0
  goes listening (returned r) l main d x due = inl ((r, main), inl l)
  goes done (returned r) l main d x due = inl ((r, main), inr l)
  goes listening draining l main d x due = drains main
  goes done draining l main d x due = drains main
  goes listening selecting l main d x (inl (e, ended)) = absurd (cc (d.1, ended))
  goes listening selecting l main d x (inr on) = notices main on
  goes done selecting l main d x due =
      let kept : (e : Option GoError) × (s.channel ≡ some e) = rw l at x.1 in
      receives kept.0 main kept.1

Inv-goes : (s : State) → Inv s → IsDue s → IsAtRest s ⊎ CanMove s
Inv-goes s v due = goes s s.listener s.main refl refl v.delivered v.explained due

-- Run never hangs. Take a state that an interleaving can reach and in which ListenAndServe has returned
-- or the context is cancelled. However Run and its goroutine go on from there, they make at most three
-- steps (the end of Shutdown is one), even if the environment does nothing more; and where no step is
-- left to them, Run has returned, and the goroutine is done or still in ListenAndServe, not held up at
-- its send.
pub run-IsAtRest :
    (s : State) (n : ℕ) (t : State)
    → Steps initial s
    → IsDue s
    → OwnSteps s n t
    → (n ≤ 3) × (IsAtRest t ⊎ CanMove t)
run-IsAtRest s n t run due own = (
  omega (arith, OwnSteps-left own, left_listener_le s.listener, left_main_le s.main),
  Inv-goes t (Steps-Inv initial-Inv (OwnSteps-Steps run own)) (OwnSteps-IsDue own due),
)
