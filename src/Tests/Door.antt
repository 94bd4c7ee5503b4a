-- ===== src/Tests/Door.antt =====
-- A request to revoke a mandate, and a forced stop.
use opc_stack.Base.{false, [], ◌∷◌, Option, none, some, String}
use opc_stack.Base.Int.{ℤ}
use opc_stack.Base.Proc.{ok}
use opc_stack.Base.Ends.{EndsIn}
use opc_stack.Policy.Json.{null}
use opc_stack.Store.Row.{empty}
use opc_stack.Control.Auth.{Command, Inbox}
use opc_stack.Control.Service.{Service}
use opc_stack.Control.Stop.{Client, RunView, force_stop}
use opc_stack.Control.Stop.Confined.{Untouched, IsTrue, force_stop-Confined}
use opc_stack.Control.Stop.Reported.{IsReported}
use opc_stack.Api.{Incoming, Site}
use opc_stack.Routes.{Wiring, Bridge, Reply}
use opc_stack.Routes.Wired.{Params}
use opc_stack.Tests.Samples.{sample_config, sample_iso}

abbrev order : Command
order = record {
  id = some "e1";
  pubkey = some "owner";
  created_at = some 1000;
  content = some "!opc mandate revoke m1";
}

abbrev channel : Inbox
channel id since = some (order ∷ [])

abbrev running : RunView
running = record { status = some "running"; issue_id = some "i1" }

abbrev halted : RunView
halted = record { status = some "cancelled"; issue_id = some "i1" }

-- The run is running at the first look, and cancelled at every later one.
abbrev halting : Client
halting = record {
  run = λ calls id. some (some (elim calls [ [] ↦ running | _ ∷ _ ↦ halted ]));
  cancel = λ calls id. some tt;
  comment = λ calls id body. none;
}

abbrev silent : Service
silent = record {
  agents = λ calls. none;
  agent = λ calls id. none;
  accepts = λ calls id patch. false;
}

abbrev pub wiring : Wiring
wiring = record {
  cfg = sample_config;
  time = sample_iso;
  lower = λ s. s;
  channel = some (channel, "c1");
  uuid = λ s. "u1";
  service = silent;
  client = halting;
  loads = λ s. none;
  repr = λ xs. "[]";
  show_number = λ n. "0";
  show_int = λ z. "0";
  backfill_from = λ since s. (s, ok 0);
  label_tickets = none;
}

abbrev bridge : Bridge
bridge = record { store = empty; board_calls = []; stop_calls = [] }

abbrev revoking : Params
revoking = record {
  query = λ name. none;
  authorization_event_id = some "e1";
  mandate_body = record {
    scope_kind = none;
    scope_id = none;
    track = none;
    style = none;
    allowed = [];
    restricted = [];
    followups_allowed = false;
    max_followups_per_day = none;
    review_policy = none;
    expires_at = none;
    reason = none;
  };
  override_body = record {
    scope_kind = none;
    scope_id = none;
    key = none;
    value = null;
    reason = none;
    expires_at = none;
  };
  id = some "m1";
  run_id = none;
  since = none;
  core = none;
  lab = none;
  adaptive = false;
}

abbrev incoming : Incoming Params
incoming = record {
  method = "POST";
  path = "/v1/mandates/revoke/";
  authorization = some "Bearer secret";
  params = revoking;
}

abbrev site : Site Reply
site = record {
  path_of = λ url. some url;
  version = "0.1.0";
  schema_version = some 1;
  dumps = λ a. some "{}";
}

abbrev parse_none : String → Option ℤ
parse_none s = none

force_stop-Confined_example :
    EndsIn
      (Untouched halting "r1" "operator" none empty)
      (λ answer s.
        IsTrue halting "r1" "operator" none empty 30 answer s
        × IsReported halting "r1" "operator" none answer s)
      (force_stop halting "r1" "operator" none 30 (record { store = empty; calls = [] }))
force_stop-Confined_example = force_stop-Confined halting "r1" "operator" none empty 30
