-- ===== src/HttpApi/Server.antt =====
-- internal/httpapi/server.go. Run is a step relation on the goroutine that listens, the channel
-- between the two, and the select in Run; net/http and the context are the environment, which ends
-- ListenAndServe and Shutdown with any result and cancels when it likes.
pub mod Shutdown
pub mod Liveness
use experiment_go.Prelude.{
  ◌≡◌, String, Bool, true, false, Option, none, some, List, [], ◌∷◌, if◌then◌else◌,
}
use experiment_go.Prelude.Int.{ℤ}
use experiment_go.Prelude.Errors.{GoError, lit, is_error, server_closed, wrap_error, wrap_if}
use experiment_go.Config.{Http, addr}

-- Server, with the fields of its http.Server.
pub record Server : Type 0 where
  pub addr : String
  pub read_timeout : ℤ
  pub read_header_timeout : ℤ
  pub write_timeout : ℤ
  pub idle_timeout : ℤ
  pub shutdown : Http

-- NewServer
unfoldable pub new_server : Http → Server
unfolding addr
new_server cfg = record {
  addr = addr cfg;
  read_timeout = cfg.read_timeout;
  read_header_timeout = cfg.read_timeout;
  write_timeout = cfg.write_timeout;
  idle_timeout = cfg.idle_timeout;
  shutdown = cfg;
}

-- What the goroutine sends for a result of ListenAndServe.
abbrev pub listen_result : Option GoError → Option GoError
listen_result none = none
listen_result (some e) =
    if is_error e server_closed then none else some (wrap_error (lit "listen" ∷ []) e)

-- What Run returns for a result of Shutdown.
abbrev pub shutdown_result : Option GoError → Option GoError
shutdown_result e = wrap_if (lit "graceful shutdown" ∷ []) e

-- The goroutine: in ListenAndServe, at the send of its result, or done.
pub data Listener : Type 0 where
  listening : Listener
  sending : Option GoError → Listener
  done : Listener

-- Run: in the select, in Shutdown, or returned.
pub data Main : Type 0 where
  selecting : Main
  draining : Main
  returned : Option GoError → Main

-- `channel` is errCh, with room for one value. The last two fields only record what happened: the
-- results of ListenAndServe and of Shutdown.
pub record State : Type 0 where
  pub listener : Listener
  pub main : Main
  pub channel : Option (Option GoError)
  pub cancelled : Bool
  pub listened : Option (Option GoError)
  pub drained : Option (Option GoError)

abbrev pub initial : State
initial = record {
  listener = listening;
  main = selecting;
  channel = none;
  cancelled = false;
  listened = none;
  drained = none;
}

pub data Step (s : State) (t : State) : Type 0 where
  -- ListenAndServe returns.
  stop_listening :
      (e : Option GoError)
      → s.listener ≡ listening
      → t ≡ record s { listener = sending (listen_result e); listened = some e }
      → Step s t
  -- errCh <- …, while the channel has room.
  send :
      (e : Option GoError)
      → s.listener ≡ sending e
      → s.channel ≡ none
      → t ≡ record s { listener = done; channel = some e }
      → Step s t
  -- The context is cancelled.
  cancel : t ≡ record s { cancelled = true } → Step s t
  -- case err := <-errCh
  receive :
      (e : Option GoError)
      → s.main ≡ selecting
      → s.channel ≡ some e
      → t ≡ record s { main = returned e; channel = none }
      → Step s t
  -- case <-ctx.Done()
  notice : s.main ≡ selecting → s.cancelled ≡ true → t ≡ record s { main = draining } → Step s t
  -- Shutdown returns.
  stop_draining :
      (e : Option GoError)
      → s.main ≡ draining
      → t ≡ record s { main = returned (shutdown_result e); drained = some e }
      → Step s t

pub data Steps (s : State) : State → Type 0 where
  here : Steps s s
  next : {t u : State} → Steps s t → Step t u → Steps s u
