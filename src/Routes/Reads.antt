-- ===== src/Routes/Reads.antt =====
-- The reads of the HTTP API (routes.py). `query name` is the first value of a parameter of the query.
-- The state of the adaptive loop is the text that it keeps; a track with no row is shown as running.
use opc_stack.Base.{Bool, Option, none, some, ◌==◌, if◌then◌else◌, String}
use mathlib.Core.Option
use opc_stack.Base.Int.{ℤ}
use opc_stack.Base.Proc.{ok, or_raise, ◌>>=◌}
use opc_stack.Event.{text_or}
use opc_stack.Policy.{Candidate, effective}
use opc_stack.Policy.Json.{Value}
use opc_stack.Store.Row.{Store}
use opc_stack.Store.Control.{track_state}
use opc_stack.Store.Meta.{get_meta}
use opc_stack.Store.Policies.{active_mandates}
use opc_stack.Store.Feed.{recent_events}
use opc_stack.Routes.{Act, Wiring, Reply, reply, Payload, resolved, mandates, state, events}

-- `_q(params, name, default)`
abbrev pub query_or : (String → Option String) → (name default : String) → String
query_or query name default = elim (query name) [ none ↦ default | some v ↦ v ]

abbrev pub some_text : String → Option String
some_text s = if s == "" then none else some s

module _ (w : Wiring) (now_iso : String) (query : String → Option String) where
  abbrev pub company : String
  company = text_or w.cfg.company_id "default"

  abbrev pub look_at : (Store → Payload) → Act Reply
  look_at show = λ b. (b, ok (reply 200 (show b.store)))

  unfoldable pub effective_route : Act Reply
  effective_route = look_at (λ s. resolved (
      effective s company (some_text (query_or query "project_id" ""))
        (query_or query "track" "lab") now_iso))

  unfoldable pub mandates_route : Act Reply
  mandates_route = look_at (λ s. mandates (active_mandates now_iso s))

  abbrev pub value_at : Store → String → Option Value
  value_at s key =
      Option.map (λ (c : Candidate). c.value) (effective s company none "lab" now_iso key)

  unfoldable pub state_route : (adaptive : Bool) → Act Reply
  state_route adaptive = look_at (λ s.
      state (track_state "core" s) (track_state "lab" s) (value_at s "allocation.core")
        (value_at s "allocation.lab") (if adaptive then get_meta "adaptive_state" s else none))

  unfoldable pub events_route : (parse_int : String → Option ℤ) → Act Reply
  events_route parse_int =
      (λ b. (b, or_raise (parse_int (text_or (some (query_or query "limit" "50")) "50"))))
      >>= λ limit. look_at (λ s. events (recent_events limit s))
