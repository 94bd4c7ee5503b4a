-- ===== src/Routes/Owned.antt =====
-- Nothing is done but on the owner's word (`_authorize` and the mutations of routes.py).
use opc_stack.Base.{ℕ, ◌≡◌, ◌⊎◌, List, [], ◌∷◌, Option, some, String, ◌&◌}
use opc_stack.Event.{text_or}
use opc_stack.Store.Row.{Store}
use opc_stack.Control.Auth.{Inbox, Auth, Command, authorized, verify}
use opc_stack.Control.Once.{IsAccepted}
use opc_stack.Routes.{
  Bridge, Request, grant, override, revoke, override_revoke, stop, backfill, allocate, label_open,
  Wiring, event_id, refuse_with, grant_tokens,
}

-- The verb that the owner's message has to start with, and the words that it has to have.
abbrev pub verb_of : Request → String
verb_of (grant body) = "!opc mandate grant"
verb_of (override body) = "!opc override"
verb_of (revoke id) = "!opc mandate revoke"
verb_of (override_revoke id) = "!opc override revoke"
verb_of (allocate core lab adaptive) = "!opc allocate"
verb_of (stop run_id) = "!opc force-stop run"
verb_of (backfill since) = "!opc backfill"
verb_of label_open = "!opc labels backfill"

module _ (w : Wiring) (now : ℕ) (authorization_event_id : Option String) where
  abbrev pub tokens_of : Request → List String
  tokens_of (grant body) = grant_tokens w now authorization_event_id body
  tokens_of (override body) = text_or body.scope_id "" ∷ text_or body.key "" ∷ []
  tokens_of (revoke id) = text_or id "" ∷ []
  tokens_of (override_revoke id) = text_or id "" ∷ []
  tokens_of (allocate (some core) (some lab) adaptive) =
      ("core=" & w.show_int core) ∷ ("lab=" & w.show_int lab) ∷ []
  tokens_of (allocate _ _ adaptive) = []
  tokens_of (stop run_id) = text_or run_id "" ∷ []
  tokens_of (backfill since) = text_or since "" ∷ []
  tokens_of label_open = []

  -- The owner's channel has the message of the request, with the verb and the words, unused.
  abbrev pub IsOwned : String → List String → Store → Type 0
  IsOwned verb tokens s =
      (inbox : Inbox) × (channel_id : String) × (m : Command) × (s' : Store) × (w.channel
        ≡ some (inbox, channel_id))
      × (verify w.cfg w.time w.lower inbox channel_id verb tokens
            (event_id w now authorization_event_id) now s
          ≡ (authorized m, s'))
      × IsAccepted w.cfg w.time w.lower inbox channel_id verb tokens
          (event_id w now authorization_event_id) now s m

  -- Nothing was done: no call went out, and at most the refusal was written to the audit.
  abbrev pub IsIdle : Bridge → Bridge → Type 0
  IsIdle before b =
      (b ≡ before)
      ⊎ ((reason : String) × (b ≡ record before {
        store = refuse_with w now authorization_event_id reason before.store;
      }))
