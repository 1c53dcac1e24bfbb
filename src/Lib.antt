-- ===== src/Lib.antt =====
-- Rootprint shows the logs and traces that the search engine Quickwit holds. The API (apps/api/src) takes
-- telemetry in under ingest keys, keeps its users, views and shares in PostgreSQL and asks Quickwit; the web
-- interface (apps/web/src) keeps a search in its URL, asks the API for rows and a histogram, and draws traces.
--
-- The files of this library and the code that they are about:
--
-- - Common and its children: lists, texts as UTF-16 code units, JavaScript's Map as a list of entries, and
--   its stable sort. No part of the program itself.
-- - Http: HttpError and its constructors (apps/api/src/utils/http-error.ts); Http.Upstream:
--   quickwitErrorToHttp (apps/api/src/lib/quickwit/errors.ts); Http.Otlp: the error answers to an exporter
--   (apps/api/src/utils/otlp-response.ts). A body is the record that is encoded.
-- - Auth: extractBearerToken (apps/api/src/utils/bearer.ts) and pickForwardedIp
--   (apps/api/src/middleware/rate-limit.ts).
-- - Keys: the ingest keys and the cache of one process (apps/api/src/services/api-key.service.ts). The table
--   is the interface KeyTable, and the cache with the database is the state Keyring. In Keys.Recent other
--   writers may change the table between two checks, and a check is one step (verifyApiKey); in Keys.Flights a
--   check awaits its query, with clearings of the cache, other checks and changes of the table in between, and
--   the query may fail. Keys.Deleted is about deleteApiKey before such checks.
-- - Accounts: first administrator, invites and passwords (apps/api/src/services/auth.service.ts), with
--   Accounts.Users (user.service.ts and service-account.service.ts there). A table is the list of its rows;
--   a transaction that throws gives back the database it began with. Hashes, ids and tokens that the code
--   draws are arguments.
-- - Saved: views, preferences and shares (view.service.ts, preference.service.ts, share.service.ts).
-- - Query: escapeFilterValue and composeQuery (apps/api/src/lib/quickwit/query.ts).
-- - Url: queries in a link (apps/web/src/lib/utils/query-params.ts, time-range.ts). A URLSearchParams is its
--   list of pairs; how numbers are written and read is the interface Numbers.
-- - Search: filters and navigation; Search.Levels: the list of levels; Search.Requests: the requests for rows and the histogram;
--   Search.Preferences: the display preferences and their saves
--   (apps/web/src/lib/components/logs/search.svelte.ts). An effect's run, an answer and a failure are steps
--   on SearchStore; an AbortController is a number. The callbacks of one promise (then, catch, finally) run
--   as one step.
-- - Fold: folding of repeated lines (apps/web/src/lib/components/logs/fold-hits.ts).
-- - Trace: the spans and nodes of a trace; Trace.Order, Trace.SelfTime, Trace.Stats and Trace.Databases are
--   the functions of apps/web/src/lib/components/traces/span-stats.ts. Times are whole microseconds.
-- - Trace.Model: buildTraceModel (trace-model.ts there). A span is known by its id, since the map holds one
--   object for each; children are found again by the link of each span in place of a list that is filled.
-- - Trace.Fetch: getTrace (apps/api/src/services/trace.service.ts), with Trace.Attributes: its
--   flattenAttributes; Trace.Fetch.Shown puts it before buildTraceModel. Starts are natural numbers, and
--   the store answers with the hits sorted by start, so rebasing subtracts the smallest.
-- - Context: the records around one record (components/logs/drawer/context/context-loader.svelte.ts there);
--   Context.Slide: its windows, Context.Run: its methods, as steps of the calls and of the answers, which
--   come in any order. Seconds are integers with a sign (Common.Int), and NaN is none.
-- - Health: what getServiceHealth makes of the answers to its searches
--   (apps/api/src/services/service-health.service.ts); Health.Errors: its list of failed spans. Percentiles and averages are of any type.
-- - Time: bucketSeconds and formatInterval (apps/api/src/lib/time.ts), intervalSeconds and withinBucketCap
--   (apps/api/src/schemas/services.ts).
-- - Sources: the ingest sources of an index (apps/api/src/services/index-source.service.ts), whose secrets
--   are masked where they are shown.
-- - Settings: sign-in settings, Settings.Providers those of Google, GitHub and passwords
--   (apps/api/src/services/settings.service.ts); Settings.Secret:
--   getBetterAuthSecret (apps/api/src/lib/secret.ts), whose two statements are two steps; Settings.Discovery:
--   verifyOidcIssuer (apps/api/src/services/oidc.service.ts), from the answer to its request.
-- - Logs: the values of fields (apps/api/src/services/log.service.ts). A search that succeeds is a function
--   from the query, the fields and the size to the aggregations.
-- - Export: the CSV of an export and what announces it (apps/api/src/services/export.service.ts); Export.Csv
--   has a reader of CSV after RFC 4180, which is not part of the program.
-- - Guards: the guards of the routes (apps/api/src/middleware/require-api-key.ts, require-user.ts,
--   require-user-or-personal-key.ts, require-admin.ts), on top of Auth and Keys. A guard returns what it puts
--   into the context or the error that it throws.
-- - IndexConfig: the request that changes an index, IndexConfig.Create the one that creates it (apps/api/src/lib/quickwit/index-config.ts, and
--   updateIndexConfig of apps/api/src/services/index.service.ts). An object is a record of optional keys.
-- - Indexes: the settings, the summary, the fields and the deletion of an index
--   (apps/api/src/services/index.service.ts), on top of Keys and Saved; a deletion filters the rows of each table, those of the
--   keys too, and empties the cache of keys of the process.
-- - Fields: the panel of fields (apps/web/src/lib/components/logs/field-list.ts).
-- - Explore: the trace explorer (apps/api/src/services/trace-explore.service.ts), from the answers of the
--   searches.
-- - Tests: runs on small inputs.
--
-- Fuel stands in two places: the loop of spansInTreeOrder and the walks of buildTraceModel take one unit for
-- each span; Trace.Order and Trace.Model.Visits show that this is enough. Every other loop is structural
-- recursion.
--
-- Not modelled: the routes and their validation, the services that only hand on answers of Quickwit, identity
-- providers, which belong to the authentication library, the generated protocol buffers, the components that draw,
-- and in the log search the field list and the index redirect. Numbers of the program that are whole by their schema
-- are natural numbers.
pub mod Accounts
pub mod Auth
pub mod Common
pub mod Context
pub mod Explore
pub mod Export
pub mod Fields
pub mod Fold
pub mod Guards
pub mod Health
pub mod Http
pub mod IndexConfig
pub mod Indexes
pub mod Keys
pub mod Logs
pub mod Query
pub mod Saved
pub mod Search
pub mod Settings
pub mod Sources
pub mod Tests
pub mod Time
pub mod Trace
pub mod Url
