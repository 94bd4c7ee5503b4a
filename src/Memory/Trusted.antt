-- ===== src/Memory/Trusted.antt =====
-- patches/hermes/memory_tencentdb/ingress.py: what `project` lets in is decided event by event.
use opc_stack.Base.{
  ◌≡◌, refl, ap, append_assoc, max, ◌+◌, String, Bool, false, not, ◌&&◌, Option, none, some, List,
  [], ◌∷◌, ◌++◌, ◌==◌, map, select, length, select-append, if◌then◌else◌, arith,
}
use opc_stack.Base.Text.{strip}
use opc_stack.Base.Table.{contains}
use opc_stack.Memory.Ingress.{
  Value, Judgement, candidates, captures, drops_of, events, get, hex, is_role, joined, judge,
  judge_fields, mapping, captured, dropped, project, project_events, text_of,
}

abbrev pub said : Value → String
said (mapping event) = strip (text_of (get "content" event))
said v = ""

module _ (lower : String → String) (trusted_writers : List String) where
  abbrev is_trusted : Option String → Bool
  is_trusted none = false
  is_trusted (some key) = contains key trusted_writers

  -- An event that triggered the turn, of an author in the list, with a text that is not blank.
  unfoldable pub is_admitted : Value → Bool
  is_admitted (mapping event) =
      is_role "trigger" (get "role" event)
      && is_trusted (hex lower (get "authorPubkey" event))
      && not (said (mapping event) == "")
  is_admitted v = false

  abbrev captured_of : Judgement → Option String
  captured_of (captured s) = some s
  captured_of (dropped d) = none

  judge-admitted :
      (v : Value)
      → captured_of (judge lower trusted_writers v)
        ≡ (if is_admitted v then some (said v) else none)
  unfolding judge judge_fields is_admitted
  judge-admitted (mapping event) = ground arith
  judge-admitted (Value.scalar) = refl
  judge-admitted (Value.text s) = refl
  judge-admitted (Value.sequence vs) = refl

  captures-select :
      (vs : List Value) → captures lower trusted_writers vs ≡ map said (select is_admitted vs)
  unfolding captures
  captures-select [] = refl
  captures-select (v ∷ vs) = ground (arith, captures-select vs, judge-admitted v)

  length-drops :
      (vs : List Value)
      → length (drops_of lower trusted_writers vs) + length (select is_admitted vs) ≡ length vs
  unfolding drops_of
  length-drops [] = refl
  length-drops (v ∷ vs) = ground (arith, length-drops vs, judge-admitted v)

  select-candidates :
      (before metas : List Value)
      → select is_admitted (candidates (before ++ metas))
        ≡ select is_admitted (candidates before) ++ select is_admitted (candidates metas)
  unfolding candidates
  select-candidates [] metas = refl
  select-candidates (meta ∷ before) metas = cc (
    select-candidates before metas,
    select-append is_admitted (events meta) (candidates before),
    select-append is_admitted (events meta) (candidates (before ++ metas)),
    append_assoc (select is_admitted (events meta)) (select is_admitted (candidates before))
        (select is_admitted (candidates metas)),
  )

  -- What a turn writes to memory is the texts of the admitted events, each stripped, in their order
  -- and joined by line breaks, and nothing where no event is admitted: an event is admitted when its
  -- role is "trigger", its author is a hexadecimal key of the trusted writers and its text is not
  -- blank.
  pub project-select :
      (metas : List Value)
      → (project lower metas trusted_writers).capture
        ≡ joined (map said (select is_admitted (candidates metas)))
  unfolding project
  project-select metas = projected (candidates metas)
    where
      projected :
          (vs : List Value)
          → (project_events lower trusted_writers vs).capture
            ≡ joined (map said (select is_admitted vs))
      projected [] = refl
      projected (v ∷ vs) = ap joined (captures-select (v ∷ vs))

  -- Every event of a turn is either captured or logged as dropped, and a turn with no event logs one
  -- drop: drops and admitted events make up the events of the turn, or one.
  pub project-counted :
      (metas : List Value)
      → length (project lower metas trusted_writers).drops
          + length (select is_admitted (candidates metas))
        ≡ max 1 (length (candidates metas))
  unfolding project
  project-counted metas = counted (candidates metas)
    where
      counted :
          (vs : List Value)
          → length (project_events lower trusted_writers vs).drops + length (select is_admitted vs)
            ≡ max 1 (length vs)
      counted [] = refl
      counted (v ∷ vs) = ground (arith, length-drops (v ∷ vs))

  -- A block of metadata that has no admitted event, put anywhere among the others, leaves what the
  -- turn writes to memory as it is without it, whatever else the block says.
  pub project-unmoved :
      (before after : List Value) (meta : Value)
      → select is_admitted (events meta) ≡ []
      → (project lower (before ++ meta ∷ after) trusted_writers).capture
        ≡ (project lower (before ++ after) trusted_writers).capture
  unfolding candidates
  project-unmoved before after meta h = cc (
    h,
    project-select (before ++ meta ∷ after),
    project-select (before ++ after),
    select-candidates before (meta ∷ after),
    select-candidates before after,
    select-append is_admitted (events meta) (candidates after),
  )
