-- ===== src/Api.antt =====
-- patches/event-bridge/opc_bridge/api.py: the door of the HTTP API, before any route. The routes are
-- a table of handlers, as the constructor takes it; a handler is a procedure that may raise. `file`
-- is the text of the key's file, none where it cannot be read, and it is read once.
use opc_stack.Base.{
  Bool, false, not, ◌&&◌, List, [], ◌∷◌, ◌++◌, Option, none, some, ◌==◌, if◌then◌else◌, String, ◌&◌,
  ℕ, eqb,
}
use Prim.Native.Char.{code}
use opc_stack.Base.Dict.{get}
use opc_stack.Base.Text.{strip}
use opc_stack.Base.Proc.{Proc, Outcome, ok, raised}

pub record Health : Type 0 where
  pub status : String
  pub version : String
  pub schema_version : ℕ
  pub missing : List String

pub data Answer {ℓ} (R : Type ℓ) : Type ℓ where
  healthy : Health → Answer R
  unauthorized : Answer R
  bad_request : (reason : String) → Answer R
  not_found : (path : String) → Answer R
  routed : R → Answer R

-- `path.rstrip("/")`
unfoldable pub strip_slashes : String → String
strip_slashes String.[] = ""
strip_slashes (String.◌∷◌ c s) =
    let rest = strip_slashes s in if eqb (code c) 47 && rest == "" then "" else String.◌∷◌ c rest

-- `parsed.path.rstrip("/") or "/"`
abbrev pub clean_path : String → String
clean_path path = if strip_slashes path == "" then "/" else strip_slashes path

unfoldable pub api_key : Option String → String
api_key none = ""
api_key (some file) = strip file

unfoldable pub is_authorized : (key : String) → Option String → Bool
is_authorized key none = false
is_authorized key (some header) =
    not (key == "") && (not (header == "") && header == "Bearer " & key)

abbrev pub lacking : Bool → String → List String
lacking present name = if present then [] else name ∷ []

unfoldable pub health :
    (key : String) → (notifier_key paperclip_key : Bool) → String → (schema_version : ℕ) → Health
health key notifier_key paperclip_key version schema_version =
    let missing =
      lacking (not (key == "")) "api_key"
      ++ lacking notifier_key "notifier_key"
      ++ lacking paperclip_key "paperclip_key" in
    record {
      status = elim missing [ [] ↦ "ok" | _ ∷ _ ↦ "degraded" ];
      version = version;
      schema_version = schema_version;
      missing = missing;
    }

-- What the door is given: `path_of` is `urlparse(...).path`, which may raise ValueError;
-- `schema_version` is read from the database and may raise; `dumps` is `json.dumps` of an answer's
-- payload, encoded, which may raise. `none` is the exception.
pub record Site {ℓ} (R : Type ℓ) : Type ℓ where
  pub path_of : String → Option String
  pub version : String
  pub schema_version : Option ℕ
  pub dumps : Answer R → Option String

-- What a request carries: the method, the path, the header, and the parameters of the route.
pub record Incoming {ℓ} (B : Type ℓ) : Type ℓ where
  pub method : String
  pub path : String
  pub authorization : Option String
  pub params : B

abbrev pub is_health {ℓ} : {B : Type ℓ} → Incoming B → String → Bool
is_health r path = clean_path path == "/v1/health" && r.method == "GET"

module _ {ℓ κ μ} {S : Type ℓ} {B : Type κ} {R : Type μ} (routes : List (String × (B → Proc S R)))
    (file : Option String) (notifier_key paperclip_key : Bool) (site : Site R) where
  abbrev pub encoded : Answer R → Option String → Outcome (Answer R)
  encoded a none = raised "TypeError"
  encoded a (some body) = ok a

  -- `_respond`; what it writes to the socket is the answer.
  abbrev pub send_answer : Answer R → Proc S (Answer R)
  send_answer a = λ s. (s, encoded a (site.dumps a))

  abbrev pub send_health : Option ℕ → Proc S (Answer R)
  send_health none = λ s. (s, raised "OperationalError")
  send_health (some schema) =
      send_answer (healthy (health (api_key file) notifier_key paperclip_key site.version schema))

  abbrev pub caught_reply : S × Outcome R → S × Outcome (Answer R)
  caught_reply (s, ok r) = send_answer (routed r) s
  caught_reply (s, raised e) = send_answer (bad_request e) s

  abbrev pub run_route : String → B → Option (B → Proc S R) → Proc S (Answer R)
  run_route path params none = send_answer (not_found path)
  run_route path params (some handler) = λ s. caught_reply (handler params s)

  unfoldable pub handle_path : Incoming B → Option String → Proc S (Answer R)
  handle_path r none = λ s. (s, raised "ValueError")
  handle_path r (some path) =
      if is_health r path
      then send_health site.schema_version
      else if not (is_authorized (api_key file) r.authorization)
      then send_answer unauthorized
      else run_route (clean_path path) r.params (get (r.method & " " & clean_path path) routes)

  unfoldable pub handle : Incoming B → Proc S (Answer R)
  unfolding handle_path
  handle r = handle_path r (site.path_of r.path)
