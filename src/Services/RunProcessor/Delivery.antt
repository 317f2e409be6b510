-- ===== src/Services/RunProcessor/Delivery.antt =====
-- `RunProcessorOnGroup` from the documents to the queue.
use mathlib.Core.List.{Mem, Perm}
use runner_io.Common.{◌≡◌, refl, ◌⊎◌, inl, inr, true, List, ◌++◌, Option, none, some, String, All}
use runner_io.Common.Map.{Map}
use runner_io.Common.Result.{ok}
use runner_io.Float64.{Float64, IsComparable}
use runner_io.Dto.Schema.{LiveLinesData, PolygonData, RunnerResponse}
use runner_io.Services.Distance.{group_config}
use runner_io.Services.CleanPolygons.Eaten.{runners}
use runner_io.Services.RemovePoints.{point_of}
use runner_io.Services.RemovePoints.Outside.{IsOutside}
use runner_io.Services.ProcessData.Safety.{process_data-total}
use runner_io.Services.RunProcessor.{
  Bson, get_live_lines_data_from_mongo, get_polygon_data_from_mongo, publish_response, run_on,
  run_processor_on_group,
}
use runner_io.Amqp.{Channel, publish_with_context}
use runner_io.Amqp.Delivery.{IsSending, publication_requests, publish_with_context_lem}

module _ {D J F B S : Type 0} ⦃f : Float64 F⦄ (mongo : Bson D J F)
    (marshal : RunnerResponse F → Option B) (c : Channel B S)
    (range_order : Map (List (List (LiveLinesData F))) → Map (List (List (LiveLinesData F))))
    (order_perm : (m : Map (List (List (LiveLinesData F)))) → Perm (range_order m) m)
    (laws : IsComparable F) where
  run_on-ok :
      (group_code : String) (lines : List (LiveLinesData F)) (polygons : List (PolygonData F))
      (s : S)
      → (r : RunnerResponse F) × (run_on mongo marshal c range_order group_code
            (ok lines)
            (ok polygons)
            s
          ≡ some (publish_response c group_code (marshal r) s))
        × All (λ l. IsOutside r.polygons (point_of l)) r.live_lines
        × All (λ p. Mem p.runner (runners r.polygons)) polygons
  unfolding run_on
  run_on-ok group_code lines polygons s =
      let (ls, ps, done, outside, there) =
        process_data-total range_order order_perm laws lines polygons group_config in
      (record { polygons = ps; live_lines = ls }, rw done refl, outside, there)

  -- What a publication of a response comes to: it cannot be marshalled, and nothing is sent; or all its
  -- requests have been sent; or one of them has reported an error.
  abbrev pub IsDelivered : IsSending c → String → Option B → S → Option String × S → Type 0
  IsDelivered b group_code none s result = result ≡ (some "Failed to marshal data", s)
  IsDelivered b group_code (some body) s result =
      (result.0 ≡ none)
      × ((b.sent result.1 ≡ b.sent s ++ publication_requests group_code body)
          ⊎ ((e : String) × ((publish_with_context c body group_code true s).1 ≡ some e)))

  sent_or_error :
      (b : IsSending c) (group_code : String) (body : B) (s : S) (e : Option String)
      → (publish_with_context c body group_code true s).1 ≡ e
      → (b.sent (publish_with_context c body group_code true s).0
          ≡ b.sent s ++ publication_requests group_code body)
        ⊎ ((e : String) × ((publish_with_context c body group_code true s).1 ≡ some e))
  sent_or_error b group_code body s none fine =
      inl (publish_with_context_lem c b body group_code s fine)
  sent_or_error b group_code body s (some e) failed = inr (e, failed)

  publish_response-IsDelivered :
      (b : IsSending c) (group_code : String) (o : Option B) (s : S)
      → IsDelivered b group_code o s (publish_response c group_code o s)
  unfolding publish_response
  publish_response-IsDelivered b group_code none s = refl
  publish_response-IsDelivered b group_code (some body) s =
      (refl, sent_or_error b group_code body s _ refl)

  -- Where the comparisons follow IEEE 754, both collections can be read, and a call of the RabbitMQ client
  -- that reports no error has sent its request: `RunProcessorOnGroup` does not panic. Where its
  -- response can be marshalled, it returns no error, and has sent the declaration and the binding of the
  -- group's queue and one message with the response under the group's code, unless one of these calls
  -- reported an error; otherwise it returns an error and has sent nothing. No live line in the response
  -- lies inside one of its polygons, whatever the times of the two, and each runner with a polygon in the
  -- database has one in it.
  pub run_processor_on_group_lem :
      (b : IsSending c) (group_code : String) (lines : List (LiveLinesData F))
      (polygons : List (PolygonData F)) (s : S)
      → get_live_lines_data_from_mongo mongo group_code ≡ ok lines
      → get_polygon_data_from_mongo mongo group_code ≡ ok polygons
      → (r : RunnerResponse F) × (result : Option String × S) × (run_processor_on_group mongo
            marshal c range_order group_code s
          ≡ some result)
        × IsDelivered b group_code (marshal r) s result
        × All (λ l. IsOutside r.polygons (point_of l)) r.live_lines
        × All (λ p. Mem p.runner (runners r.polygons)) polygons
  unfolding run_processor_on_group
  run_processor_on_group_lem b group_code lines polygons s read_lines read_polygons =
      let (r, ran, outside, there) = run_on-ok group_code lines polygons s in
      (
        r,
        publish_response c group_code (marshal r) s,
        rw (read_lines, read_polygons) ran,
        publish_response-IsDelivered b group_code (marshal r) s,
        outside,
        there,
      )
