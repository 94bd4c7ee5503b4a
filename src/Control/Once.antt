-- ===== src/Control/Once.antt =====
-- An owner's message authorizes one operation, once.
use opc_stack.Base.{
  ℕ, ◌+◌, ◌*◌, ◌≤◌, ◌≡◌, refl, subst, Bool, true, false, ◌||◌, ◌&&◌, List, [], ◌∷◌, ◌++◌, Option,
  none, some, ◌==◌, if◌then◌else◌, first, all, arith, eq_iff, String, Bool-cases, inl, inr,
}
use opc_stack.Base.Int.{◌-ℤ◌}
use opc_stack.Base.Table.{find, insert, find-append}
use opc_stack.Base.Text.{starts_with, strip}
use opc_stack.Config.{Config, Iso}
use opc_stack.Event.{text_or, status_text}
use opc_stack.Store.Row.{Store}
use opc_stack.Store.Policies.{auth_used, use_auth, auth_key}
use opc_stack.Control.Auth.{
  Command, Inbox, Auth, authorized, denied, unreachable, taken, normalize, action_of, has_token,
  is_named, sent_at, refusal, spend, refuse_or, verify_found, verify_among, verify,
}

abbrev is_authorized : Auth → Bool
is_authorized (authorized m) = true
is_authorized _ = false

-- The store after the use of an event is written down.
unfoldable pub spent : String → String → String → Store → Store
spent e at action s = record s {
  auth_uses = s.auth_uses ++ record { event_id = e; used_at = at; action = action } ∷ [];
}

use_auth-spent :
    (e at action : String) (s : Store)
    → auth_used e s ≡ false
    → use_auth e at action s ≡ some (spent e at action s)
unfolding use_auth auth_used insert spent
use_auth-spent e at action s h = rw h refl

spent-auth_used :
    (e at action k : String) (s : Store)
    → auth_used k (spent e at action s) ≡ (e == k || auth_used k s)
unfolding auth_used spent find
spent-auth_used e at action k s =
    rw
      (find-append auth_key k s.auth_uses
        (record { event_id = e; used_at = at; action = action } ∷ []))
      (ground arith)

module _ (cfg : Config) (time : Iso) (lower : String → String) where
  first-found :
      (e : String) (ms : List Command) (m : Command)
      → first (is_named e) ms ≡ some m
      → status_text m.id ≡ e
  first-found e [] m h = cc
  first-found e (x ∷ ms) m h = ground (arith, eq_iff (status_text x.id) e, first-found e ms m)

  refusal-none :
      (verb : String) (tokens : List String) (e : String) (m : Command) (now : ℕ) (s : Store)
      → refusal cfg time lower verb tokens e m now s ≡ none
      → (lower (text_or m.pubkey "") ≡ lower cfg.operator_pubkey)
        × (now ≤ sent_at m + cfg.command_max_age_seconds)
        × (starts_with (normalize verb) (normalize (text_or m.content "")) ≡ true)
        × (all (has_token (normalize (text_or m.content ""))) tokens ≡ true)
        × (auth_used e s ≡ false)
  unfolding refusal
  refusal-none verb tokens e m now s h =
      ground (arith, eq_iff (lower (text_or m.pubkey "")) (lower cfg.operator_pubkey))

  module _ (inbox : Inbox) (channel_id verb : String) (tokens : List String) (e : String) (now : ℕ)
      (s : Store) where
    -- The message stands for the operation: the owner's, fresh, with the verb and every token.
    pub record IsAccepted (m : Command) : Type 0 where
      pub named : status_text m.id ≡ e
      pub owned : lower (text_or m.pubkey "") ≡ lower cfg.operator_pubkey
      pub fresh : now ≤ sent_at m + cfg.command_max_age_seconds
      pub says_verb : starts_with (normalize verb) (normalize (text_or m.content "")) ≡ true
      pub says_tokens : all (has_token (normalize (text_or m.content ""))) tokens ≡ true
      pub unused : auth_used e s ≡ false

    abbrev pub Account : Auth × Store → Type 0
    Account (authorized m, s') = IsAccepted m × (s' ≡ spent e (time.iso now) (action_of verb) s)
    Account (_, s') = s' ≡ s

    accept :
        (m : Command)
        → status_text m.id ≡ e
        → (r : Option String) → refusal cfg time lower verb tokens e m now s ≡ r
        → Account (
            refuse_or cfg time lower r
              (spend cfg time lower m s (use_auth e (time.iso now) (action_of verb) s))
              s)
    accept m named (some reason) h = refl
    accept m named none h =
        let (a, b, c, d, u) = refusal-none verb tokens e m now s h in
        rw (use_auth-spent e (time.iso now) (action_of verb) s u) (
          record {
            named = named;
            owned = a;
            fresh = b;
            says_verb = c;
            says_tokens = d;
            unused = u;
          },
          refl,
        )

    found :
        (ms : List Command) (r : Option Command)
        → first (is_named e) ms ≡ r
        → Account (verify_found cfg time lower verb tokens e now s r)
    unfolding verify_found
    found ms none h = refl
    found ms (some m) h =
        accept m (first-found e ms m h) (refusal cfg time lower verb tokens e m now s) refl

    among :
        (r : Option (List Command)) → Account (verify_among cfg time lower verb tokens e now s r)
    among none = refl
    among (some ms) = found ms (first (is_named e) ms) refl

    pub verify-accounts : Account (verify cfg time lower inbox channel_id verb tokens e now s)
    unfolding verify
    verify-accounts =
        elim (Bool-cases (cfg.operator_pubkey == "" || e == "" || verb == "" || strip verb == "")) [
          | inl h ↦ rw h refl
          | inr h ↦ rw h (among (inbox channel_id (now -ℤ (2 * cfg.command_max_age_seconds + 60))))
        ]

    used_up :
        (k : String) (o : Auth × Store)
        → Account o
        → (auth_used k o.1 ≡ ((e == k && is_authorized o.0) || auth_used k s))
          × (is_authorized o.0 ≡ true → auth_used e s ≡ false)
    used_up k (authorized m, s') h = (
      rw h.1 (rw (spent-auth_used e (time.iso now) (action_of verb) k s) (ground arith)),
      λ _. h.0.unused,
    )
    used_up k (denied reason, s') h = (rw h (ground arith), λ i. cc)
    used_up k (unreachable, s') h = (rw h (ground arith), λ i. cc)
    used_up k (taken, s') h = (rw h (ground arith), λ i. cc)

  pub record Request : Type 0 where
    pub inbox : Inbox
    pub channel_id : String
    pub verb : String
    pub tokens : List String
    pub event_id : String
    pub now : ℕ

  abbrev pub answer : Request → Store → Auth × Store
  answer r s = verify cfg time lower r.inbox r.channel_id r.verb r.tokens r.event_id r.now s

  abbrev pub one_if : Bool → ℕ
  one_if b = if b then 1 else 0

  -- How many of a sequence of requests an event authorizes.
  unfoldable pub authorizations : String → List Request → Store → ℕ
  authorizations k [] s = 0
  authorizations k (r ∷ rs) s =
      one_if (r.event_id == k && is_authorized (answer r s).0) + authorizations k rs (answer r s).1

  step :
      (k : String) (r : Request) (s : Store)
      → (auth_used k (answer r s).1
          ≡ ((r.event_id == k && is_authorized (answer r s).0) || auth_used k s))
        × (is_authorized (answer r s).0 ≡ true → auth_used r.event_id s ≡ false)
  step k r s =
      used_up r.inbox r.channel_id r.verb r.tokens r.event_id r.now s k (answer r s)
        (verify-accounts r.inbox r.channel_id r.verb r.tokens r.event_id r.now s)

  tally :
      (mine granted before after : Bool) (n : ℕ)
      → after ≡ ((mine && granted) || before)
      → (mine ≡ true → granted ≡ true → before ≡ false)
      → n + one_if after ≤ 1
      → one_if (mine && granted) + n + one_if before ≤ 1
  tally true true before after n a f h = let b = f refl refl in ground arith
  tally true false before after n a f h = ground arith
  tally false granted before after n a f h = ground arith

  bounded :
      (k : String) (rs : List Request) (s : Store)
      → authorizations k rs s + one_if (auth_used k s) ≤ 1
  unfolding authorizations
  bounded k [] s = ground arith
  bounded k (r ∷ rs) s =
      let (after, fresh) = step k r s in
      tally (r.event_id == k) (is_authorized (answer r s).0) (auth_used k s)
        (auth_used k (answer r s).1) (authorizations k rs (answer r s).1) after
        (λ mine i. subst (λ x. auth_used x s ≡ false) ((eq_iff r.event_id k).0 mine) (fresh i))
        (bounded k rs (answer r s).1)

  -- However many requests name an event, in whatever order, for whatever operations and whatever
  -- the channel answers, it authorizes at most one of them, and none if it was used before.
  pub verify_once :
      (k : String) (rs : List Request) (s : Store)
      → (authorizations k rs s ≤ 1) × (auth_used k s ≡ true → authorizations k rs s ≡ 0)
  verify_once k rs s = let b = bounded k rs s in (omega arith, λ h. ground arith)
