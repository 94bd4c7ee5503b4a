-- ===== src/Control/Auth.antt =====
-- `OperatorAuth.verify` of control.py. The messages of the control channel are what the `buzz`
-- command answers from a time on, or nothing when it fails; `lower` is `str.lower`.
use opc_stack.Base.{
  ℕ, ◌+◌, ◌*◌, Bool, true, not, ◌||◌, List, [], ◌∷◌, Option, none, some, ltb, ◌==◌, if◌then◌else◌,
  first, all, String,
}
use opc_stack.Base.Int.{ℤ, ◌-ℤ◌}
use opc_stack.Base.Table.{contains}
use opc_stack.Base.Text.{strip, words, split_blanks, join_words, starts_with}
use opc_stack.Config.{Config, Iso}
use opc_stack.Event.{text_or, status_text}
use opc_stack.Store.Row.{Store}
use opc_stack.Store.Policies.{auth_used, use_auth}

pub record Command : Type 0 where
  pub id : Option String
  pub pubkey : Option String
  pub created_at : Option ℕ
  pub content : Option String

abbrev pub Inbox : Type 0
Inbox = String → ℤ → Option (List Command)

-- `unreachable` is the BuzzError of the read, `taken` the IntegrityError of a second use.
pub data Auth : Type 0 where
  authorized : Command → Auth
  denied : String → Auth
  unreachable taken : Auth

unfoldable pub normalize : String → String
unfolding words join_words
normalize text = join_words (words text)

abbrev second_word : List String → String
second_word [] = "opc"
second_word (w ∷ []) = "opc"
second_word (w ∷ action ∷ more) = action

unfoldable pub action_of : String → String
unfolding normalize split_blanks
action_of verb = second_word (split_blanks (normalize verb))

unfoldable pub has_token : String → String → Bool
unfolding normalize split_blanks
has_token content token =
    if normalize token == "" then true else contains (normalize token) (split_blanks content)

abbrev pub is_named : String → Command → Bool
is_named event_id m = status_text m.id == event_id

abbrev pub sent_at : Command → ℕ
sent_at m = elim m.created_at [ none ↦ 0 | some at ↦ at ]

module _ (cfg : Config) (time : Iso) (lower : String → String) where
  -- The reasons to refuse a message that was found, in the order of the source.
  unfoldable pub refusal : String → List String → String → Command → ℕ → Store → Option String
  refusal verb tokens event_id m now s =
      if not (lower (text_or m.pubkey "") == lower cfg.operator_pubkey)
      then some "wrong_author"
      else if ltb (sent_at m + cfg.command_max_age_seconds) now
      then some "stale"
      else if not (starts_with (normalize verb) (normalize (text_or m.content "")))
      then some "command_mismatch"
      else if not (all (has_token (normalize (text_or m.content ""))) tokens)
      then some "command_mismatch"
      else if auth_used event_id s
      then some "replayed"
      else none

  abbrev pub spend : Command → Store → Option Store → Auth × Store
  spend m s none = (taken, s)
  spend m s (some s') = (authorized m, s')

  abbrev pub refuse_or : Option String → Auth × Store → Store → Auth × Store
  refuse_or none accepted s = accepted
  refuse_or (some reason) accepted s = (denied reason, s)

  unfoldable pub verify_found :
      String → List String → String → ℕ → Store → Option Command → Auth × Store
  unfolding refusal
  verify_found verb tokens event_id now s none = (denied "not_found", s)
  verify_found verb tokens event_id now s (some m) =
      refuse_or (refusal verb tokens event_id m now s)
        (spend m s (use_auth event_id (time.iso now) (action_of verb) s)) s

  abbrev pub verify_among :
      String → List String → String → ℕ → Store → Option (List Command) → Auth × Store
  verify_among verb tokens event_id now s none = (unreachable, s)
  verify_among verb tokens event_id now s (some messages) =
      verify_found verb tokens event_id now s (first (is_named event_id) messages)

  unfoldable pub verify :
      (inbox : Inbox) (channel_id verb : String) → List String → String → ℕ → Store → Auth × Store
  unfolding verify_found
  verify inbox channel_id verb tokens event_id now s =
      if cfg.operator_pubkey == "" || event_id == "" || verb == "" || strip verb == ""
      then (denied "missing", s)
      else verify_among verb tokens event_id now s
          (inbox channel_id (now -ℤ (2 * cfg.command_max_age_seconds + 60)))
