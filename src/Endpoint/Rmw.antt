-- ===== src/Endpoint/Rmw.antt =====
-- The entry points of src/rmw.cpp that move messages, and src/desert_classes/DesertGuardCondition.cpp.
-- Each returns `RMW_RET_OK`, which is left out; `taken` is what is in the caller's variable before.
use rmw_desert.Prelude.{
  ℕ, ◌%◌, Bool, true, false, Option, none, some, List, [], ◌∷◌, map, get_or, set, if◌then◌else◌,
}
use rmw_desert.Prelude.Int.{ℤ, pos}
use rmw_desert.Message.{Language, Members, Result, ◌>>=◌, Memory}
use rmw_desert.Endpoint.{Setup, World}
use rmw_desert.Endpoint.Publisher.{DesertPublisher, push}
use rmw_desert.Endpoint.Subscriber
use rmw_desert.Endpoint.Subscriber.{DesertSubscriber, read_data}
use rmw_desert.Endpoint.Client
use rmw_desert.Endpoint.Client.{DesertClient, read_response, send_request}
use rmw_desert.Endpoint.Service
use rmw_desert.Endpoint.Service.{DesertService, read_request, send_response}

module _ {F D : Type 0} (s : Setup F D) (lang : Language) (ms : Members) where
  unfoldable pub rmw_publish :
      Memory F D ms → DesertPublisher → World F → Result (DesertPublisher × World F)
  rmw_publish msg publisher w = push s lang ms msg publisher w

  -- `random` is what `rand` returns.
  unfoldable pub rmw_send_request :
      Memory F D ms → ℕ → DesertClient → World F → Result ((ℤ × DesertClient) × World F)
  rmw_send_request req random cli w =
      send_request s lang ms req (pos (random % 1000)) cli w
      >>= (λ p. Result.ok ((pos (random % 1000), p.0), p.1))

  unfoldable pub rmw_send_response :
      Memory F D ms → ℤ → DesertService → World F → Result ((ℤ × DesertService) × World F)
  rmw_send_response res sequence_number ser w = send_response s lang ms res sequence_number ser w

  unfoldable pub rmw_take :
      Memory F D ms → Bool → DesertSubscriber → World F → Result ((Memory F D ms × Bool) × World F)
  rmw_take msg taken sub w = Subscriber.has_data s sub w >>= (λ p.
      if p.0
      then read_data s lang ms msg sub p.1 >>= (λ q. Result.ok ((q.0, true), q.1))
      else Result.ok ((msg, taken), p.1))

  -- The number in the header is the argument and part of the result.
  unfoldable pub rmw_take_request :
      Memory F D ms
      → ℤ
      → Bool
      → DesertService
      → World F
      → Result ((Memory F D ms × ℤ × Bool × DesertService) × World F)
  rmw_take_request req header taken ser w = Service.has_data s ser w >>= (λ p.
      if p.0
      then read_request s lang ms req ser p.1
        >>= (λ q. Result.ok ((q.0.0, q.0.1, true, q.0.2), q.1))
      else Result.ok ((req, header, taken, ser), p.1))

  unfoldable pub rmw_take_response :
      Memory F D ms
      → ℤ
      → Bool
      → DesertClient
      → World F
      → Result ((Memory F D ms × ℤ × Bool) × World F)
  rmw_take_response res header taken cli w = Client.has_data s cli w >>= (λ p.
      if p.0
      then read_response s lang ms res cli p.1 >>= (λ q. Result.ok ((q.0.0, q.0.1, true), q.1))
      else Result.ok ((res, header, taken), p.1))

-- `trigger` and `get_has_triggered`, which resets the flag, for the guard condition at a place.
unfoldable pub trigger : {F : Type 0} → ℕ → World F → World F
trigger i w = record w { guards = set w.guards i true }

unfoldable pub get_has_triggered : {F : Type 0} → ℕ → World F → Result (Bool × World F)
get_has_triggered i w =
    Result.ok (get_or w.guards i false, record w { guards = set w.guards i false })

unfoldable pub rmw_trigger_guard_condition : {F : Type 0} → ℕ → World F → World F
rmw_trigger_guard_condition i w = trigger i w

-- A loop of `rmw_wait`: an entry that is not ready is nulled, and one that is null is skipped.
unfoldable pub wait_loop :
    {F E : Type 0}
    → (E → World F → Result (Bool × World F))
    → List (Option E)
    → World F
    → Result (List (Option E) × World F)
wait_loop ready [] w = Result.ok ([], w)
wait_loop ready (none ∷ entries) w =
    wait_loop ready entries w >>= (λ q. Result.ok (none ∷ q.0, q.1))
wait_loop ready (some e ∷ entries) w = ready e w >>= (λ p.
    wait_loop ready entries p.1 >>= (λ q. Result.ok ((if p.0 then some e else none) ∷ q.0, q.1)))

-- The loop where the array is there.
unfoldable pub wait_for :
    {F E : Type 0}
    → (E → World F → Result (Bool × World F))
    → Option (List (Option E))
    → World F
    → Result (Option (List (Option E)) × World F)
wait_for ready none w = Result.ok (none, w)
wait_for ready (some entries) w = wait_loop ready entries w >>= (λ q. Result.ok (some q.0, q.1))

-- The arrays that `rmw_wait` is given.
pub record Entries : Type 0 where
  pub subscriptions : Option (List (Option DesertSubscriber))
  pub clients : Option (List (Option DesertClient))
  pub services : Option (List (Option DesertService))
  pub guard_conditions : Option (List (Option ℕ))
  pub events : Option (List (Option ℕ))

-- The events are nulled.
unfoldable pub no_events : Option (List (Option ℕ)) → Option (List (Option ℕ))
no_events none = none
no_events (some events) = some (map (λ e. none) events)

unfoldable pub rmw_wait :
    {F D : Type 0} → Setup F D → Entries → World F → Result (Entries × World F)
rmw_wait s entries w = wait_for (Subscriber.has_data s) entries.subscriptions w >>= (λ subs.
    wait_for (Client.has_data s) entries.clients subs.1 >>= (λ clis.
      wait_for (Service.has_data s) entries.services clis.1 >>= (λ sers.
        wait_for get_has_triggered entries.guard_conditions sers.1 >>= (λ cons. Result.ok (
          record {
            subscriptions = subs.0;
            clients = clis.0;
            services = sers.0;
            guard_conditions = cons.0;
            events = no_events entries.events;
          },
          cons.1,
        )))))
