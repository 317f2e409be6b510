-- ===== src/Services/Consumer/Acks.antt =====
-- The consumer of the live lines ends no message in a panic, and acknowledges those that parse.
use mathlib.Core.List.{Perm, append-nil, append_assoc, map-append}
use runner_io.Common.{
  ◌≡◌, refl, sym, ◌∙◌, map, Bool, true, false, List, [], ◌∷◌, ◌++◌, Option, none, some, String,
  if◌then◌else◌,
}
use runner_io.Common.Map.{Map}
use runner_io.Common.Result.{Result, ok, err}
use runner_io.Float64.{Float64, IsComparable}
use runner_io.Dto.Schema.{LiveLinesData, PolygonData}
use runner_io.Services.Distance.{group_config}
use runner_io.Services.ProcessData.Safety.{process_data-total}
use runner_io.Services.RunProcessor.{
  Bson, get_live_lines_data_from_mongo, get_polygon_data_from_mongo, publish_response, response,
  run_on, run_processor_on_group,
}
use runner_io.Amqp.{◌then◌}
use runner_io.Services.Consumer.{
  Turn, before, between, behind, Consumer, Calls, insert_line, run_around, with_broker_of,
  run_group, run_both, acked_by, with_line, on_line, on_message, persist_audit_data,
}

abbrev pub is_none : Option String → Bool
is_none none = true
is_none (some e) = false

-- Whether a message parses does not hang on the variable.
pub record IsParsing {M D J F B DB S : Type 0} (calls : Calls M D J F B DB S) : Type 0 where
  pub parses : M → Bool
  pub unmarshal-parses :
      (d : M) (l : LiveLinesData F) → is_none ((calls.unmarshal d l).1) ≡ parses d

-- The messages that `Ack` was called for.
abbrev pub acked : {M F DB S : Type 0} → Consumer M F DB S → List M
acked k = map (λ a. a.0) k.acks

module _ {M D J F B DB S : Type 0} {calls : Calls M D J F B DB S} (parsing : IsParsing calls) where
  -- The message, where it parses.
  abbrev pub parsed : M → List M
  parsed d = if parsing.parses d then d ∷ [] else []

  -- The messages that parse, in order.
  abbrev pub all_parsed : List (M × Turn) → List M
  all_parsed [] = []
  all_parsed ((d, turn) ∷ messages) = parsed d ++ all_parsed messages

module _ {M D J F B DB S : Type 0} ⦃f : Float64 F⦄ (calls : Calls M D J F B DB S)
    (range_order : Map (List (List (LiveLinesData F))) → Map (List (List (LiveLinesData F))))
    (order_perm : (m : Map (List (List (LiveLinesData F)))) → Perm (range_order m) m)
    (laws : IsComparable F) where
  run_on-total :
      (mongo : Bson D J F) (key : String) (lines : Result String (List (LiveLinesData F)))
      (polygons : Result String (List (PolygonData F))) (s : S)
      → (r : Option String × S) × (run_on mongo calls.marshal calls.channel range_order key lines
            polygons s
          ≡ some r)
  unfolding run_on
  run_on-total mongo key (err e) polygons s = (_, refl)
  run_on-total mongo key (ok lines) (err e) s = (_, refl)
  run_on-total mongo key (ok lines) (ok polygons) s =
      let (ls, ps, done, outside, there) =
        process_data-total range_order order_perm laws lines polygons group_config in
      (publish_response calls.channel key (calls.marshal (response (ls, ps))) s, rw done refl)

  run_group-kept :
      (k : Consumer M F DB S)
      → (k' : Consumer M F DB S) × (run_group calls range_order k ≡ some k')
        × (k'.line ≡ k.line)
        × (k'.database ≡ k.database)
        × (k'.acks ≡ k.acks)
  unfolding run_group run_processor_on_group
  run_group-kept k =
      let (r, ran) =
        run_on-total (calls.mongo k.database) k.line.group_code
          (get_live_lines_data_from_mongo (calls.mongo k.database) k.line.group_code)
          (get_polygon_data_from_mongo (calls.mongo k.database) k.line.group_code) k.broker in
      (with_broker_of calls range_order k r, rw ran refl, refl, refl, refl)

  -- The line is inserted once, whenever its goroutine gets its turn.
  pub run_both-inserted :
      (turn : Turn) (k : Consumer M F DB S)
      → (k' : Consumer M F DB S) × (run_both calls range_order turn k ≡ some k')
        × (k'.database ≡ (calls.insert_one k.line k.database).0)
        × (k'.acks ≡ k.acks)
  unfolding run_both insert_line run_around
  run_both-inserted before k =
      let (k', ran, line, database, acks) = run_group-kept (insert_line calls range_order k) in
      (k', ran, database, acks)
  run_both-inserted between k =
      let inserted = insert_line calls range_order k in
      let (r, ran) =
        run_on-total (calls.mongo k.database) k.line.group_code
          (get_live_lines_data_from_mongo (calls.mongo k.database) k.line.group_code)
          (get_polygon_data_from_mongo (calls.mongo inserted.database) k.line.group_code)
          k.broker in
      (with_broker_of calls range_order inserted r, rw ran refl, refl, refl)
  run_both-inserted behind k =
      let (k', ran, line, database, acks) = run_group-kept k in
      (insert_line calls range_order k', rw ran refl, rw (line, database) refl, acks)

module _ {M D J F B DB S : Type 0} ⦃f : Float64 F⦄ (calls : Calls M D J F B DB S)
    (range_order : Map (List (List (LiveLinesData F))) → Map (List (List (LiveLinesData F))))
    (order_perm : (m : Map (List (List (LiveLinesData F)))) → Perm (range_order m) m)
    (laws : IsComparable F) (parsing : IsParsing calls) where
  on_line-acked :
      (d : M) (turn : Turn) (e : Option String) (k : Consumer M F DB S)
      → is_none e ≡ parsing.parses d
      → (k' : Consumer M F DB S) × (on_line calls range_order d turn e k ≡ some k')
        × (acked k' ≡ acked k ++ parsed parsing d)
  unfolding on_line
  on_line-acked d turn (some e) k there = (k, refl, rw (sym there) (sym (append-nil _)))
  on_line-acked d turn none k there =
      let (k', ran, inserted, acks) = run_both-inserted calls range_order order_perm laws turn k in
      (
        acked_by calls range_order d k',
        rw ran refl,
        rw (sym there, acks) (map-append (λ a. a.0) k.acks _),
      )

  on_message-acked :
      (d : M) (turn : Turn) (k : Consumer M F DB S)
      → (k' : Consumer M F DB S) × (on_message calls range_order d turn k ≡ some k')
        × (acked k' ≡ acked k ++ parsed parsing d)
  unfolding on_message
  on_message-acked d turn k =
      let read = calls.unmarshal d k.line in
      on_line-acked d turn read.1 (with_line calls range_order read.0 k)
        (parsing.unmarshal-parses d k.line)

  -- Where the comparisons follow IEEE 754 and whether a message parses does not hang on the variable, no
  -- sequence of messages makes the consumer panic, wherever the insertion of a message comes among the
  -- reads of the processor; it calls `Ack` for each message that parses, once and in order, also where the
  -- insertion or the processor failed or an earlier `Ack` reported an error, and for none that does not
  -- parse.
  pub persist_audit_data_lem :
      (messages : List (M × Turn)) (k : Consumer M F DB S)
      → (k' : Consumer M F DB S) × (persist_audit_data calls range_order messages k ≡ some k')
        × (acked k' ≡ acked k ++ all_parsed parsing messages)
  unfolding persist_audit_data
  persist_audit_data_lem [] k = (k, refl, sym (append-nil _))
  persist_audit_data_lem ((d, turn) ∷ messages) k =
      let (k1, one, one_acked) = on_message-acked d turn k in
      let (k2, rest, rest_acked) = persist_audit_data_lem messages k1 in
      (
        k2,
        rw one rest,
        rest_acked
            ∙ rw one_acked
                (append_assoc (acked k) (parsed parsing d) (all_parsed parsing messages)),
      )
