-- ===== src/Examples/Deliveries.antt =====
-- A run of the consumer of the live lines on a broker that refuses one acknowledgement.
use mathlib.Core.List.Perm
use runner_io.Common.{
  ◌≡◌, true, false, List, [], ◌∷◌, ◌++◌, none, some, String, str_eq, arith, if◌then◌else◌,
}
use runner_io.Common.Map.{Map}
use runner_io.Common.Result.{ok, err}
use runner_io.Float64.Fixed.{Fixed, fixed_float, Fixed-IsComparable}
use runner_io.Dto.Schema.{LiveLinesData}
use runner_io.Amqp.{Call}
use runner_io.Services.RunProcessor.{Bson}
use runner_io.Services.Consumer.{Turn, before, between, Consumer, Calls, persist_audit_data}
use runner_io.Services.Consumer.Acks.{IsParsing, acked, is_none, all_parsed, persist_audit_data_lem}
use runner_io.Examples.{line}

abbrev quiet : Call (List String)
quiet s = (s, none)

-- The polygons cannot be read, so that the processor fails each time.
abbrev lines_only :
    List (LiveLinesData Fixed) → Bson (LiveLinesData Fixed) (LiveLinesData Fixed) Fixed
lines_only database = record {
  find = λ collection field value.
      if str_eq collection "runner_polygon" then err "no connection" else ok database;
  to_json = λ d. some d;
  live_line = λ d. some d;
  polygon = λ d. none;
}

abbrev small_calls :
    Calls String
      (LiveLinesData Fixed)
      (LiveLinesData Fixed)
      Fixed
      String
      (List (LiveLinesData Fixed))
      (List String)
small_calls = record {
  unmarshal = λ d l. if str_eq d "{" then (l, some "syntax") else (line d 1 2 5, none);
  insert_one = λ l database. (database ++ l ∷ [], none);
  mongo = lines_only;
  marshal = λ r. some "response";
  channel = record {
    exchange_declare = λ e nw. quiet;
    queue_declare = λ q nw. quiet;
    queue_bind = λ q k e nw. quiet;
    publish = λ e k m b. quiet;
  };
  ack = λ d s. (s, if str_eq d "ann" then some "closed" else none);
}

reads :
    (d : String) (l : LiveLinesData Fixed)
    → is_none ((small_calls.unmarshal d l).1) ≡ (if str_eq d "{" then false else true)
reads d l = ground arith

abbrev small_calls-IsParsing : IsParsing small_calls
small_calls-IsParsing = record {
  parses = λ d. if str_eq d "{" then false else true;
  unmarshal-parses = reads;
}

abbrev start : Consumer String Fixed (List (LiveLinesData Fixed)) (List String)
start = record { line = line "" 0 0 0; database = []; broker = []; acks = [] }

abbrev in_order : Map (List (List (LiveLinesData Fixed))) → Map (List (List (LiveLinesData Fixed)))
in_order m = m

abbrev some_messages : List (String × Turn)
some_messages = ("ann", before) ∷ ("{", between) ∷ ("bob", between) ∷ []

persist_audit_data_lem_example :
    (k : Consumer String Fixed (List (LiveLinesData Fixed)) (List String)) × (persist_audit_data
        small_calls in_order some_messages start
      ≡ some k)
    × (acked k ≡ [] ++ all_parsed small_calls-IsParsing some_messages)
persist_audit_data_lem_example =
    persist_audit_data_lem small_calls in_order (λ m. Perm.refl m) Fixed-IsComparable
      small_calls-IsParsing some_messages start
