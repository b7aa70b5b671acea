-- ===== src/Command/Serve/Clients.antt =====
-- What the clients of the pool, of BigQuery and of the bucket leave open.
use experiment_go.Prelude.{refl, Bool, true, false, Option, none, some, List}
use experiment_go.Prelude.Errors.{GoError, Result, ok, err}
use experiment_go.Config.{Config}
use experiment_go.BqSink.Opening.{
  Target, new_sink, close_sink, with_client, with_descriptor, streamed,
}
use experiment_go.Quarantine.Opening.{close_gcs}
use experiment_go.Database.{parsed_config, created, pinged}
use experiment_go.Command.Serve.{Platform, close_ingest}
use experiment_go.Command.Serve.Trace.{
  pool, writer, stream, bucket, Event, closed, step, nothing, Tracked, piped, Holds, Gained,
  Holds-step, Holds-same, Opens-Gained,
}

module _ {W : Type 0} (events : W → List Event) where
  module _ {S A M P R : Type 0} (platform : Platform W S A M P R) (cfg : Config)
      (tracked : Tracked events platform) where
    pub close_sink-Holds :
        (p b : Bool) (w : W)
        → Holds events (piped p true true b) w
        → Holds events (piped p false false b) (close_sink platform.sink w).1
    unfolding close_sink step
    close_sink-Holds p b w holds =
        Holds-step events (closed writer) (piped p true false b) (piped p false false b)
          (platform.sink.close_stream w).1
          (platform.sink.close_client (platform.sink.close_stream w).1).1 refl
          (tracked.on_writer_close (platform.sink.close_stream w).1)
          (Holds-step events (closed stream) (piped p true true b) (piped p true false b) w
            (platform.sink.close_stream w).1 refl (tracked.on_stream_close w) holds)

    pub close_ingest-Holds :
        (p : Bool) (w : W)
        → Holds events (piped p true true true) w
        → Holds events (piped p false false false) (close_ingest platform cfg w)
    unfolding close_ingest close_gcs step
    close_ingest-Holds p w holds =
        let w' = (close_sink platform.sink w).1 in
        Holds-step events (closed bucket) (piped p false false true) (piped p false false false) w'
          (platform.gcs.close_client w').1 refl (tracked.on_bucket_close w')
          (close_sink-Holds p true w holds)

    -- What New of the sink leaves.
    abbrev pub Sunk : Bool → Result M × W → Type 0
    Sunk p (err e, w) = Holds events (piped p false false false) w
    Sunk p (ok m, w) = Holds events (piped p true true false) w

    abandon-Holds :
        (p : Bool) (w : W)
        → Holds events (piped p true false false) w
        → Holds events (piped p false false false) (platform.sink.close_client w).1
    unfolding step
    abandon-Holds p w holds =
        Holds-step events (closed writer) (piped p true false false) (piped p false false false) w
          (platform.sink.close_client w).1 refl (tracked.on_writer_close w) holds

    streamed-Sunk :
        (p : Bool) (m : M) (x : Option GoError × W)
        → Gained events (piped p true false false) (piped p true true false) x
        → Sunk p (streamed platform.sink m x)
    streamed-Sunk p m (none, w) gained = gained
    streamed-Sunk p m (some e, w) gained = abandon-Holds p w gained

    with_descriptor-Sunk :
        (p : Bool) (target : Target) (r : Result (M × P)) (w : W)
        → Holds events (piped p true false false) w
        → Sunk p (with_descriptor platform.sink target r w)
    unfolding step
    with_descriptor-Sunk p target (err e) w holds = abandon-Holds p w holds
    with_descriptor-Sunk p target (ok (m, d)) w holds =
        let x = platform.sink.new_stream target d w in
        streamed-Sunk p m x (
          Opens-Gained events stream (piped p true false false) (piped p true true false) w x refl
            (tracked.on_stream target d w) holds)

    with_client-Sunk :
        (p : Bool) (target : Target) (x : Option GoError × W)
        → Gained events (piped p false false false) (piped p true false false) x
        → Sunk p (with_client platform.sink target x)
    with_client-Sunk p target (some e, w) gained = gained
    with_client-Sunk p target (none, w) gained = with_descriptor-Sunk p target _ w gained

    pub new_sink-Sunk :
        (p : Bool) (target : Target) (w : W)
        → Holds events (piped p false false false) w
        → Sunk p (new_sink platform.sink target w)
    unfolding new_sink step
    new_sink-Sunk p target w holds =
        let x = platform.sink.new_client target.project w in
        with_client-Sunk p target x (
          Opens-Gained events writer (piped p false false false) (piped p true false false) w x refl
            (tracked.on_writer target.project w) holds)

    -- The pool.
    pinged-Gained :
        (x : Option GoError × W)
        → Holds events (piped true false false false) x.1
        → Gained events nothing (piped true false false false) (pinged platform.pool cfg.db x)
    unfolding step
    pinged-Gained (none, w) holds = holds
    pinged-Gained (some e, w) holds =
        Holds-step events (closed pool) (piped true false false false) nothing w
          (platform.pool.close w) refl (tracked.on_pool_close w) holds

    created-Gained :
        (x : Option GoError × W)
        → Gained events nothing (piped true false false false) x
        → Gained events nothing (piped true false false false) (created platform.pool cfg.db x)
    created-Gained (some e, w) gained = gained
    created-Gained (none, w) gained = pinged-Gained (platform.pool.ping _ w) (
        Holds-same events (piped true false false false) w (platform.pool.ping _ w).1
          (tracked.on_ping _ w) gained)

    pub parsed-Gained :
        (r : _) (w : W)
        → Holds events nothing w
        → Gained events nothing
            (piped true false false false)
            (parsed_config platform.pool cfg.db r w)
    unfolding step
    parsed-Gained (err e) w holds = holds
    parsed-Gained (ok c) w holds = created-Gained (platform.pool.new_with_config _ w) (
        Opens-Gained events pool nothing (piped true false false false) w
          (platform.pool.new_with_config _ w) refl (tracked.on_pool _ w) holds)
