-- ===== src/Trace/Databases.antt =====
-- The database calls of a trace and the caption of a span, `dbRollups` and `describeSpan` of
-- apps/web/src/lib/components/traces/span-stats.ts. A target lists its queries by their keys; the object
-- that the program shares between the target and the map of queries stands in the map.
pub mod Counted
use rootprint.Common.{
  ℕ, suc, ◌+◌, Text, codes, text_eq, Bool, not, Option, none, some, List, [], ◌∷◌, ◌++◌,
  if◌then◌else◌, is_empty, or_else, trim, join, map, filter,
}
use mathlib.Core.Option
use rootprint.Common.Dict
use rootprint.Common.Dict.{Dict}
use rootprint.Common.Sort.{sort, ascending, descending}
use rootprint.Trace.{TraceSpan}

-- `a[key]`, where a missing attribute is falsy like an empty one.
abbrev pub value_of : Dict Text Text → Text → Text
value_of attributes key = Option.get_or (Dict.get attributes key) []

pub attr : TraceSpan → List Text → Text
unfolding Dict.get
attr span [] = []
attr span (key ∷ keys) = or_else (value_of span.attributes key) (attr span keys)

abbrev db_system_keys : List Text
db_system_keys = codes "db.system" ∷ codes "db.system.name" ∷ []

abbrev db_statement_keys : List Text
db_statement_keys = codes "db.statement" ∷ codes "db.query.text" ∷ []

abbrev db_host_keys : List Text
db_host_keys = codes "server.address" ∷ codes "net.peer.name" ∷ []

pub db_system : TraceSpan → Text
unfolding attr
db_system span = attr span db_system_keys

pub is_db_span : TraceSpan → Bool
unfolding db_system attr
is_db_span span = not (is_empty (or_else (db_system span) (attr span db_statement_keys)))

pub db_statement : TraceSpan → Text
unfolding attr trim
db_statement span = or_else (trim (attr span db_statement_keys)) span.name

pub record DbQuery : Type 0 where
  pub key : Text
  pub statement : Text
  pub error_count : ℕ
  pub total_micros : ℕ
  pub calls : List TraceSpan

pub record DbTarget : Type 0 where
  pub key : Text
  pub system : Text
  pub host : Text
  pub count : ℕ
  pub total_micros : ℕ
  pub queries : List Text

-- A target with its queries put in place of their keys.
pub record TargetView : Type 0 where
  pub target : DbTarget
  pub queries : List DbQuery

pub record DbMaps : Type 0 where
  pub targets : Dict Text DbTarget
  pub queries : Dict Text DbQuery

abbrev pub no_calls : DbMaps
no_calls = record { targets = []; queries = [] }

module _ (stringify : List Text → Text) where
  abbrev pub target_key : TraceSpan → Text
  target_key s = stringify (db_system s ∷ attr s db_host_keys ∷ [])

  abbrev pub query_key : TraceSpan → Text
  query_key s = stringify (db_system s ∷ attr s db_host_keys ∷ db_statement s ∷ [])

  abbrev open_target : TraceSpan → Option DbTarget → DbTarget
  open_target s none = record {
    key = target_key s;
    system = db_system s;
    host = attr s db_host_keys;
    count = 0;
    total_micros = 0;
    queries = [];
  }
  open_target s (some t) = t

  abbrev open_query : TraceSpan → Option DbQuery → DbQuery
  open_query s none = record {
    key = query_key s;
    statement = db_statement s;
    error_count = 0;
    total_micros = 0;
    calls = [];
  }
  open_query s (some q) = q

  -- The key of a query that is new to the map joins its target.
  abbrev new_key : TraceSpan → Option DbQuery → List Text
  new_key s none = query_key s ∷ []
  new_key s (some q) = []

  abbrev grown_target : TraceSpan → Option DbQuery → DbTarget → DbTarget
  grown_target s known t = record t {
    count = suc t.count;
    total_micros = t.total_micros + s.duration_micros;
    queries = t.queries ++ new_key s known;
  }

  abbrev grown_query : TraceSpan → DbQuery → DbQuery
  grown_query s q = record q {
    error_count = if s.is_error then suc q.error_count else q.error_count;
    total_micros = q.total_micros + s.duration_micros;
    calls = q.calls ++ s ∷ [];
  }

  -- One round of the loop for a span of a database.
  pub add_call : DbMaps → TraceSpan → DbMaps
  add_call m s = record {
    targets = Dict.set m.targets (target_key s) (
        grown_target s (Dict.get m.queries (query_key s))
          (open_target s (Dict.get m.targets (target_key s))));
    queries =
        Dict.set m.queries (query_key s)
          (grown_query s (open_query s (Dict.get m.queries (query_key s))));
  }

  pub db_maps : DbMaps → List TraceSpan → DbMaps
  unfolding add_call
  db_maps m [] = m
  db_maps m (s ∷ spans) = db_maps (if is_db_span s then add_call m s else m) spans

  abbrev pub sorted_calls : DbQuery → DbQuery
  sorted_calls q = record q { calls = sort (ascending (λ s. s.start_offset_micros)) q.calls }

  pub known_queries : Dict Text DbQuery → List Text → List DbQuery
  known_queries queries [] = []
  known_queries queries (k ∷ keys) =
      let rest = known_queries queries keys in
      elim (Dict.get queries k) [ none ↦ rest | some q ↦ q ∷ rest ]

  abbrev pub view_of : Dict Text DbQuery → DbTarget → TargetView
  view_of queries t = record {
    target = t;
    queries =
        map sorted_calls
          (sort (descending (λ q. q.total_micros)) (known_queries queries t.queries));
  }

  pub db_rollups : List TraceSpan → List TargetView
  unfolding db_maps known_queries sort
  db_rollups spans =
      let m = db_maps no_calls spans in
      map (view_of m.queries) (sort (descending (λ t. t.total_micros)) (Dict.values m.targets))

pub record Caption : Type 0 where
  pub kind : Text
  pub detail : Text

-- `parts.filter(Boolean).join(separator)`
abbrev joined : Text → List Text → Text
joined separator parts = join separator (filter (λ p. not (is_empty p)) parts)

pub exception_headline : Dict Text Text → Text
unfolding join
exception_headline fields =
    joined (codes ": ")
      (value_of fields (codes "exception.type") ∷ value_of fields (codes "exception.message") ∷ [])

-- The arrow of `→ status`, U+2192.
abbrev arrow : Text
arrow = 0x2192 ∷ []

http_caption : TraceSpan → Text → Caption
unfolding attr join
http_caption s method =
    let target =
      attr s
        (codes "http.route" ∷ codes "url.path" ∷ codes "http.target" ∷ codes "url.full" ∷ []) in
    let status = attr s (codes "http.response.status_code" ∷ codes "http.status_code" ∷ []) in
    record {
      kind = codes "HTTP";
      detail =
          joined (codes " ")
            (method ∷ target ∷ (if is_empty status then [] else arrow ++ codes " " ++ status) ∷ []);
    }

rpc_caption : TraceSpan → Text → Text → Caption
unfolding join
rpc_caption s service method = record {
  kind = or_else (value_of s.attributes (codes "rpc.system")) (codes "RPC");
  detail = joined (codes "/") (service ∷ method ∷ []);
}

messaging_caption : TraceSpan → Text → Caption
unfolding attr
messaging_caption s destination =
    let operation = attr s (codes "messaging.operation.name" ∷ codes "messaging.operation" ∷ []) in
    record {
      kind = or_else (value_of s.attributes (codes "messaging.system")) (codes "Messaging");
      detail =
          if is_empty operation
          then destination
          else operation ++ codes " " ++ arrow ++ codes " " ++ destination;
    }

unfoldable pub describe_span : TraceSpan → Option Caption
unfolding attr http_caption rpc_caption messaging_caption is_db_span db_system db_statement
describe_span s =
    let method = attr s (codes "http.request.method" ∷ codes "http.method" ∷ []) in
    let service = value_of s.attributes (codes "rpc.service") in
    let rpc_method = value_of s.attributes (codes "rpc.method") in
    let destination =
      attr s (codes "messaging.destination.name" ∷ codes "messaging.destination" ∷ []) in
    if not (is_empty method)
    then some (http_caption s method)
    else if is_db_span s
    then some (record { kind = or_else (db_system s) (codes "Database"); detail = db_statement s })
    else if not (is_empty (or_else service rpc_method))
    then some (rpc_caption s service rpc_method)
    else if not (is_empty destination)
    then some (messaging_caption s destination)
    else none
