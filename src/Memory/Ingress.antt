-- ===== src/Memory/Ingress.antt =====
-- patches/hermes/memory_tencentdb/ingress.py: which messages of a turn enter durable memory.
use Prim.Native.Char.{Char, code}
use opc_stack.Base.{
  ℕ, zero, suc, String, Bool, false, not, ◌&&◌, ◌||◌, Option, none, some, List, [], ◌∷◌, ◌++◌, ◌==◌,
  if◌then◌else◌, leb, eqb,
}
use opc_stack.Base.Text.{strip, join_lines}
use opc_stack.Base.Table.{contains}

-- What a JSON document holds; a number, a truth value and null are told apart nowhere here. The
-- keys of a mapping are distinct, as those of a `dict` are.
mutual
  pub data Value : Type 0 where
    scalar : Value
    text : String → Value
    sequence : Values → Value
    mapping : Fields → Value

  pub data Values : Type 0 where
    nil : Values
    cons : Value → Values → Values

  pub data Fields : Type 0 where
    end : Fields
    field : String → Value → Fields → Fields

unfoldable pub items : Values → List Value
items nil = []
items (cons v vs) = v ∷ items vs

-- `fields.get(key)`
unfoldable pub get : String → Fields → Option Value
get key end = none
get key (field k v rest) = if k == key then some v else get key rest

-- `value if isinstance(value, dict) else ...` and the like
abbrev pub as_mapping : Option Value → Option Fields
as_mapping (some (mapping fields)) = some fields
as_mapping v = none

abbrev pub as_items : Option Value → List Value
as_items (some (sequence vs)) = items vs
as_items v = []

abbrev pub lookup : String → Option Fields → Option Value
lookup key none = none
lookup key (some fields) = get key fields

-- `_events`
unfoldable pub events : Value → List Value
unfolding items get
events meta = as_items (lookup "memoryEvents" (as_mapping (lookup "buzz" (as_mapping (some meta)))))

pub record Drop : Type 0 where
  pub reason : String
  pub content : String
  pub sender_pubkey : Option String
  pub event_id : Option String
  pub channel_id : Option String

pub record Projection : Type 0 where
  pub capture : Option String
  pub drops : List Drop

abbrev pub is_hex_digit : Char → Bool
is_hex_digit c = (leb 48 (code c) && leb (code c) 57) || (leb 97 (code c) && leb (code c) 102)

-- Whether the text has exactly `n` characters, each a hexadecimal digit.
unfoldable pub is_hex : ℕ → String → Bool
is_hex n String.[] = eqb n 0
is_hex zero (String.◌∷◌ c s) = false
is_hex (suc n) (String.◌∷◌ c s) = is_hex_digit c && is_hex n s

-- `_text`, and the same of a key that may be missing.
abbrev pub text_of : Option Value → String
text_of (some (text s)) = s
text_of v = ""

-- `text or None`
abbrev pub present : String → Option String
present s = if s == "" then none else some s

-- What is added for one candidate: to the captures or to the drops.
pub data Judgement : Type 0 where
  captured : String → Judgement
  dropped : Drop → Judgement

abbrev pub malformed : Drop
malformed = record {
  reason = "malformed-event";
  content = "";
  sender_pubkey = none;
  event_id = none;
  channel_id = none;
}

-- `role == word`, of a role that may be missing or of another type
abbrev pub is_role : String → Option Value → Bool
is_role word (some (text s)) = s == word
is_role word v = false

unfoldable pub candidates : List Value → List Value
unfolding events
candidates [] = []
candidates (meta ∷ metas) = events meta ++ candidates metas

abbrev pub joined : List String → Option String
joined [] = none
joined (s ∷ more) = some (join_lines (s ∷ more))

abbrev pub no_events : Drop
no_events = record {
  reason = "no-memory-events";
  content = "";
  sender_pubkey = none;
  event_id = none;
  channel_id = none;
}

-- `lower` is `str.lower`.
module _ (lower : String → String) where
  -- `_hex`
  abbrev pub hex : Option Value → Option String
  hex (some (text s)) = if is_hex 64 (lower (strip s)) then some (lower (strip s)) else none
  hex v = none

  abbrev pub drop_of : Fields → String → Drop
  drop_of event reason = record {
    reason = reason;
    content = text_of (get "content" event);
    sender_pubkey = hex (get "authorPubkey" event);
    event_id = present (text_of (get "eventId" event));
    channel_id = present (text_of (get "channelId" event));
  }

  -- The body of the loop, of an event that is a mapping.
  unfoldable pub judge_fields : List String → Fields → Judgement
  unfolding get strip is_hex
  judge_fields trusted_writers event =
      let content = text_of (get "content" event) in
      let role = get "role" event in
      let author = hex (get "authorPubkey" event) in
      if not (is_role "trigger" role)
      then dropped (drop_of event (if is_role "prior" role then "prior-event" else "unknown-role"))
      else elim author [
        | none ↦ dropped (drop_of event "no-author-pubkey")
        | some key ↦
            if not (contains key trusted_writers)
            then dropped (drop_of event "untrusted-writer")
            else if strip content == ""
            then dropped (drop_of event "empty-content")
            else captured (strip content)
      ]

  unfoldable pub judge : List String → Value → Judgement
  unfolding judge_fields
  judge trusted_writers (mapping event) = judge_fields trusted_writers event
  judge trusted_writers v = dropped malformed

  -- The two lists that the loop appends to.
  unfoldable pub captures : List String → List Value → List String
  unfolding judge
  captures trusted_writers [] = []
  captures trusted_writers (v ∷ vs) =
      let rest = captures trusted_writers vs in
      elim (judge trusted_writers v) [ captured s ↦ s ∷ rest | dropped d ↦ rest ]

  unfoldable pub drops_of : List String → List Value → List Drop
  unfolding judge
  drops_of trusted_writers [] = []
  drops_of trusted_writers (v ∷ vs) =
      let rest = drops_of trusted_writers vs in
      elim (judge trusted_writers v) [ captured s ↦ rest | dropped d ↦ d ∷ rest ]

  abbrev pub project_events : List String → List Value → Projection
  project_events trusted_writers [] = record { capture = none; drops = no_events ∷ [] }
  project_events trusted_writers (v ∷ vs) = record {
    capture = joined (captures trusted_writers (v ∷ vs));
    drops = drops_of trusted_writers (v ∷ vs);
  }

  unfoldable pub project : List Value → List String → Projection
  unfolding candidates captures drops_of
  project metas trusted_writers = project_events trusted_writers (candidates metas)
