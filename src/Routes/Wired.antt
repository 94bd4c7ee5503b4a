-- ===== src/Routes/Wired.antt =====
-- The routes behind the door (`build` of routes.py and `_handle` of api.py): whatever is done needs the
-- service's key and the owner's word.
use opc_stack.Base.{ℕ, ◌≡◌, Bool, List, [], ◌∷◌, Option, none, some, String, ◌&◌}
use opc_stack.Base.Int.{ℤ}
use opc_stack.Base.Dict.{get}
use opc_stack.Control.Grants.{MandateBody, OverrideBody}
use opc_stack.Routes.{
  Bridge, Act, Wiring, Reply, Request, grant, override, revoke, override_revoke, stop, backfill,
  allocate, label_open, respond,
}
use opc_stack.Routes.Owned.{IsOwned, verb_of, tokens_of}
use opc_stack.Routes.Reads.{effective_route, mandates_route, state_route, events_route}
use opc_stack.Api.{Answer, Incoming, Site, handle, clean_path}

-- The parameters of a route: the query, and the fields of the JSON body.
pub record Params : Type 0 where
  pub query : String → Option String
  pub authorization_event_id : Option String
  pub mandate_body : MandateBody
  pub override_body : OverrideBody
  pub id : Option String
  pub run_id : Option String
  pub since : Option String
  pub core : Option ℤ
  pub lab : Option ℤ
  pub adaptive : Bool

-- A route of the table: a read, or a mutation with the request it makes.
pub data Route : Type 0 where
  read_effective read_mandates read_state read_events : Route
  mutate : (Params → Request) → Route

abbrev pub table : List (String × Route)
table =
    ("GET /v1/policy/effective", read_effective)
    ∷ ("GET /v1/mandates", read_mandates)
    ∷ ("GET /v1/control/state", read_state)
    ∷ ("GET /v1/events", read_events)
    ∷ ("POST /v1/mandates", mutate (λ p. grant p.mandate_body))
    ∷ ("POST /v1/mandates/revoke", mutate (λ p. revoke p.id))
    ∷ ("POST /v1/control/override", mutate (λ p. override p.override_body))
    ∷ ("POST /v1/control/override/revoke", mutate (λ p. override_revoke p.id))
    ∷ ("POST /v1/control/allocation", mutate (λ p. allocate p.core p.lab p.adaptive))
    ∷ ("POST /v1/control/force-stop", mutate (λ p. stop p.run_id))
    ∷ ("POST /v1/control/backfill", mutate (λ p. backfill p.since))
    ∷ ("POST /v1/control/backfill-labels", mutate (λ p. label_open))
    ∷ []

module _ (w : Wiring) (now : ℕ) (adaptive_loop : Bool) (parse_int : String → Option ℤ) where
  unfoldable pub run_of : Route → Params → Act Reply
  run_of read_effective p = effective_route w (w.time.iso now) p.query
  run_of read_mandates p = mandates_route w (w.time.iso now) p.query
  run_of read_state p = state_route w (w.time.iso now) p.query adaptive_loop
  run_of read_events p = events_route w (w.time.iso now) p.query parse_int
  run_of (mutate make) p = respond w now p.authorization_event_id (make p)

  unfoldable pub build : List (String × Route) → List (String × (Params → Act Reply))
  build [] = []
  build ((key, route) ∷ more) = (key, run_of route) ∷ build more

  -- The route of the key is a mutation, and the owner's message stands for its request.
  abbrev pub IsWanted : String → Params → Bridge → Type 0
  IsWanted key p b =
      (make : (Params → Request)) × (get key table ≡ some (mutate make))
      × IsOwned w now p.authorization_event_id (verb_of (make p))
          (tokens_of w now p.authorization_event_id (make p)) b.store

  module _ (file : Option String) (notifier_key paperclip_key : Bool) (site : Site Reply) where
    abbrev pub serve : Incoming Params → Act (Answer Reply)
    serve = handle (build table) file notifier_key paperclip_key site

    abbrev path_or_empty : Option String → String
    path_or_empty none = ""
    path_or_empty (some path) = path

    abbrev key_of : Incoming Params → String
    key_of r = r.method & " " & clean_path (path_or_empty (site.path_of r.path))
