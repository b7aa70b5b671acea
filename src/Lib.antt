-- ===== src/Lib.antt =====
-- Models of experiment-go, a Go service with two roles: a REST API for tasks over Postgres, and an
-- ingest endpoint that takes consumption documents pushed by Pub/Sub and stores their readings in
-- BigQuery. The files below follow the Go packages; paths are from the root of the repository.
--
-- Ingest. internal/httpapi/ingest.go (HttpApi/Ingest) checks the token of a push with
-- internal/httpapi/oidc.go (HttpApi/Oidc), unpacks the envelope, and calls Service.Ingest of
-- internal/consumption/service.go (Consumption/Service). Ingest finds a parser by the root element
-- in internal/consumption/registry.go (Consumption/Registry); the parser, such as
-- internal/consumption/xmlfmt/esmp.go (XmlFmt/Esmp and the modules below it), hands batches of
-- readings to a function that stamps and validates them by internal/consumption/consumption.go
-- (Consumption) and writes them to internal/consumption/bqsink/sink.go (BqSink), whose rows
-- bqsink/schema.go describes (BqSink/Schema). What cannot be stored for good goes to
-- internal/consumption/quarantine/gcs.go (Quarantine).
--
-- Tasks. internal/httpapi/tasks.go (HttpApi/Tasks) answers the requests over
-- internal/task/service.go and task.go (Task), which stores through internal/task/postgres.go
-- (Task/Postgres). internal/config/config.go (Config) reads and checks the settings of both roles.
-- internal/httpapi/burn.go (HttpApi/Burn) spends CPU time for experiments, and
-- internal/httpapi/health.go (HttpApi/Health) answers the probes.
--
-- Wiring. cmd/api/main.go and migrate.go (Command: Run, Serve and Migrate) read the settings, run
-- the migrations of internal/migrator/migrator.go (Migrator), open the pool of
-- internal/database/postgres.go (Database), the clients of BqSink/Opening and Quarantine/Opening,
-- and serve. internal/httpapi/router.go (HttpApi/Router) is the route table of a role,
-- middleware.go (HttpApi/Middleware) the chain around it, and server.go (HttpApi/Server) the
-- server with its shutdown. internal/logger/logger.go (Logger) chooses the handler of the log.
--
-- How code corresponds to definitions. A method that changes something outside takes and returns a
-- world or a database, so that the order of its calls is written out. A Go error is a `GoError`:
-- the sentinels that errors.Is finds in it, and the message before formatting (Prelude/Errors).
-- `none` is the nil error. Parser.Parse is a `Parsing`, the tree of its calls of emit with what it
-- does after each result. int and int64 are integers (Prelude/Int); where Go wraps around,
-- `wrap64` or `wrap32` stands. The text functions of the standard library that the code needs are
-- written out in Prelude/Text on characters. Names of functions are those of the source in lower
-- case with underscores. Server.Run has two goroutines and a channel and is a step relation. What
-- is opened and closed is read off a trace of events (Command/Serve/Trace).
--
-- Composition. What the parts do together stands in modules of its own: the push endpoint over
-- Ingest and the BigQuery sink in HttpApi/Ingest/Outage, the deliveries of one message until it is
-- acknowledged in HttpApi/Ingest/Redelivery, what they leave for the readers of the view
-- readings_current (deploy/terraform/gcp/modules/warehouse/main.tf) in
-- Consumption/Service/Current, sequences of HTTP requests over the router, the handlers, the
-- service and the repository in HttpApi/Middleware/ApiRole, a change of a task and the GET behind
-- it in HttpApi/Tasks/Visible, a client that reads all pages of tasks in Task/Store/Walk, a
-- TimeSeries as written and read in XmlFmt/Esmp/Document, and a configuration as written into
-- variables and loaded in Config/RoundTrip.
--
-- Fuel. The loops of the ESMP parser are bounded by one more than the tokens that are left, and
-- each round takes a token (XmlFmt/Loop). The loop of spin needs one round more than the clock
-- needs to pass the deadline. Deliveries of a message are bounded by one more than the failures
-- that the sink has left, pages of tasks by one more than the tasks. Decimal printing is bounded
-- by the number itself.
--
-- Parameters. The functions of the package xmlfmt that are not in the repository are the record
-- `Common`, and streamDocument is an argument of `parse`; what their errors must be is in
-- XmlFmt/Esmp/Blame (`Permanent`). encoding/xml's tokens, json.Unmarshal, gin's binding,
-- idtoken.Validate, the BigQuery stream with its descriptor, the bucket, SHA-256, and the
-- formatting of times and URLs are records or arguments. Postgres is the record `Pool`, and what
-- the repository relies on is the record `Table` in Task/Postgres/Contents, with `OnPage` there
-- for the errors of a page and `Paged` in Task/Store/Walk for the order of pages. `Table` assumes
-- more than pgx promises in one point: a statement that returns an error has changed nothing,
-- where a connection can be lost after the commit. The errors that gin attaches to its context
-- when it cannot write a response are a field of the router's `Library`. gin's matching of paths,
-- golang-migrate, net/url, pgxpool, managedwriter with adapt, and the storage client are records,
-- too; what is relied on is in HttpApi/Router/Dispatch (`IsSound`), HttpApi/Router/Effects
-- (`RespectsMethods`), BqSink/Outages (`IsForeign`), Migrator/History (`History`),
-- Command/Migrate/Rollback (`Schema`) and Command/Serve/Trace (`Tracked`). time.ParseDuration
-- reads back what a writer of durations gives (Config/RoundTrip, `IsReadable`). A Close counts as
-- done whatever error it returns.
--
-- Not modelled: what is logged beside the request lines, the SQL of the migrations, the serving of
-- connections by net/http and gin, and everything that is not Go but for one view. Contexts are
-- left out but for the one that starts the shutdown: the code passes them on. The EnergyAccount
-- parser is not in the repository: its registration is an argument of the wiring. An interface
-- that is nil makes the push handler panic at once, where the code panics at its first call.
pub mod Prelude
pub mod Consumption
pub mod XmlFmt
pub mod HttpApi
pub mod Quarantine
pub mod Task
pub mod Config
pub mod BqSink
pub mod Migrator
pub mod Database
pub mod Logger
pub mod Command
pub mod Tests
