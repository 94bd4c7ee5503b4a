-- ===== src/Control/Below.antt =====
-- What the commands and the poller do to the priorities of the stored policies: none reaches that of
-- a hard rule.
use opc_stack.Base.{
  ℕ, ◌<◌, ◌≡◌, refl, sym, ap, Bool, true, false, ◌||◌, List, [], ◌∷◌, ◌++◌, Option, none, some, All,
  All-append, String, Bool-cases, inl, inr, arith, is_some,
}
use opc_stack.Base.{◌==◌, is_none, if◌then◌else◌}
use opc_stack.Base.Int.{ℤ}
use opc_stack.Event.{Event}
use opc_stack.Store.Meta.{set_origin, upsert_issue_state, set_meta, set_cursor}
use opc_stack.Poller.Entries.{IsKept}
use opc_stack.Routes.{Wiring, revoke_row}
use opc_stack.Base.Table.{find, insert, contains, update}
use opc_stack.Config.{Config, Iso}
use opc_stack.Policy.{hard_priority, hard_rules}
use opc_stack.Policy.Json.{Value}
use opc_stack.Store.Row.{Store, PolicyRow, MandateRow}
use opc_stack.Store.Outbox.{audit, enqueue_event}
use opc_stack.Store.Policies.{
  policy_key, mandate_key, insert_policy, insert_mandate, revoke_mandate_row, get_mandate,
  revoke_policy,
}
use opc_stack.Store.Control.{ledger_put, ledger_release, set_track_state}
use opc_stack.Control.Auth.{Inbox, Auth, authorized, denied, unreachable, taken, verify}
use opc_stack.Control.Once.{verify-accounts, spent, Account}
use opc_stack.Control.Agents.{Agent}
use opc_stack.Control.Service.{Service, Board}
use opc_stack.Control.Runs.{Any, Leaves}
use opc_stack.Control.Allocation.{apply_allocation}
use opc_stack.Control.Steps.{lock_agent-Runs, unlock_agent-Runs, slots_patch-Runs}
use opc_stack.Control.Frame.{IsFrame, apply_allocation-Runs}
use opc_stack.Control.Grants.{
  Answer, answered, policy_error, failed, MandateBody, OverrideBody, mandate_row, override_row,
  inserted, grant_mandate, revoke_mandate, revocation, set_override, is_scoped, is_styled,
  is_addressed, default_keys,
}

-- Every stored policy gives way to a hard rule.
abbrev pub IsBelowHard : Store → Type 0
IsBelowHard s = All (λ (row : PolicyRow). hard_priority < row.priority) s.policies

insert_policy-appends :
    (row : PolicyRow) (s s' : Store) (taken : Bool)
    → is_some (find policy_key row.id s.policies) ≡ taken
    → insert_policy row s ≡ some s'
    → s'.policies ≡ s.policies ++ row ∷ []
unfolding insert_policy insert
insert_policy-appends row s s' true e h = let q = rw e at h in cc
insert_policy-appends row s s' false e h =
    let q = rw e at h in
    ap (λ (x : Option Store). elim x [ none ↦ s'.policies | some y ↦ y.policies ]) (sym q)

insert_mandate-policies :
    (row : MandateRow) (s s' : Store) (taken : Bool)
    → is_some (find mandate_key row.id s.mandates) ≡ taken
    → insert_mandate row s ≡ some s'
    → s'.policies ≡ s.policies
unfolding insert_mandate insert
insert_mandate-policies row s s' true e h = let q = rw e at h in cc
insert_mandate-policies row s s' false e h =
    let q = rw e at h in
    ap (λ (x : Option Store). elim x [ none ↦ s'.policies | some y ↦ y.policies ]) (sym q)

insert_policy-IsBelowHard :
    (row : PolicyRow) (s s' : Store)
    → hard_priority < row.priority
    → insert_policy row s ≡ some s'
    → IsBelowHard s
    → IsBelowHard s'
insert_policy-IsBelowHard row s s' p h k =
    rw (insert_policy-appends row s s' (is_some (find policy_key row.id s.policies)) refl h)
      (All-append _ s.policies (row ∷ []) k (p, tt))

-- The answers of a service say nothing here.
All-Any : (agents : List Agent) → All Any agents
All-Any [] = tt
All-Any (a ∷ more) = (tt, All-Any more)

module _ (cfg : Config) (pc : Service) (uuid : Store → String)
    (loads : String → Option (List String)) (repr : List String → String) (show_number : ℕ → String)
    (actor : String) (source_event_id : Option String) (now_iso : String) where
  abbrev Safe : Board → Type 0
  Safe b = IsBelowHard b.store

  frame : IsFrame cfg pc uuid loads repr show_number actor source_event_id now_iso Safe Any
  unfolding ledger_put ledger_release set_track_state audit
  frame = record {
    reads = λ b id p. p;
    lists = λ b p. p;
    listed = λ h agents e. All-Any agents;
    policies = λ b row s h e p. insert_policy-IsBelowHard row b.store s h e p;
    locks = λ track a q.
        lock_agent-Runs cfg pc uuid loads repr show_number actor source_event_id now_iso Safe a
          (λ b id p. p) (λ b p k. k) track (λ status lifecycle held b p. p);
    unlocks = λ a q.
        unlock_agent-Runs cfg pc uuid loads repr show_number actor source_event_id now_iso Safe a
          (λ b id p. p) (λ b p k. k) (λ b p. p);
    slots = λ n a.
        slots_patch-Runs cfg pc uuid loads repr show_number actor source_event_id now_iso Safe a n
          (λ b config metadata p. p);
    states = λ b row p. p;
    audits = λ b who what target detail from p. p;
  }

  Leaves-Safe : {A : Type 0} (r : Board × Answer A) → Leaves Safe Any r → Safe r.0
  Leaves-Safe (b, answered a) h = h.0
  Leaves-Safe (b, policy_error e) h = h
  Leaves-Safe (b, failed e) h = h

  pub allocated-Safe :
      (core lab : ℤ) (adaptive : Bool) (b : Board)
      → Safe b
      → Safe
          (apply_allocation cfg pc uuid loads repr show_number actor source_event_id now_iso core
            lab adaptive b).0
  allocated-Safe core lab adaptive b p =
      Leaves-Safe
        (apply_allocation cfg pc uuid loads repr show_number actor source_event_id now_iso core lab
          adaptive b)
        (apply_allocation-Runs cfg pc uuid loads repr show_number actor source_event_id now_iso Safe
          Any frame core lab adaptive b p)

inserted_policies :
    {A : Type 0} (s : Store) (r : Option Store) (after : Store → Store) (row : A)
    → IsBelowHard s
    → ((s' : Store) → r ≡ some s' → IsBelowHard (after s'))
    → IsBelowHard (inserted s r after row).0
inserted_policies s none after row p h = p
inserted_policies s (some s') after row p h = h s' refl

pub set_override-IsBelowHard :
    (body : OverrideBody) (id actor : String) (from : Option String) (now_iso : String) (s : Store)
    → IsBelowHard s
    → IsBelowHard (set_override body id actor from now_iso s).0
unfolding set_override audit
set_override-IsBelowHard body id actor from now_iso s p =
    let row = override_row body id actor from now_iso in
    elim (Bool-cases (is_addressed row)) [
      | inr e ↦ rw e p
      | inl e ↦
          rw e (elim (Bool-cases (contains row.key default_keys || contains row.key hard_rules)) [
            | inr f ↦ rw f p
            | inl f ↦ rw f (elim (Bool-cases (contains row.key hard_rules)) [
              | inl g ↦ rw g p
              | inr g ↦ rw g (
                  inserted_policies s (insert_policy row s) _ row p
                    (λ s' h. insert_policy-IsBelowHard row s s' (omega arith) h p))
            ])
          ])
    ]

pub grant_mandate-IsBelowHard :
    (body : MandateBody) (id actor : String) (from : Option String) (now_iso : String) (s : Store)
    → IsBelowHard s
    → IsBelowHard (grant_mandate body id actor from now_iso s).0
unfolding grant_mandate audit
grant_mandate-IsBelowHard body id actor from now_iso s p =
    let row = mandate_row body id actor from now_iso in
    elim (Bool-cases (is_scoped row)) [
      | inr e ↦ rw e p
      | inl e ↦ rw e (elim (Bool-cases (is_styled row)) [
        | inr f ↦ rw f p
        | inl f ↦ rw f (
            inserted_policies s (insert_mandate row s) _ row p (λ s' h.
              rw
                (insert_mandate-policies row s s' (is_some (find mandate_key row.id s.mandates))
                  refl h)
                p))
      ])
    ]

pub revoke_mandate-IsBelowHard :
    (id actor : String) (from : Option String) (now_iso : String) (s : Store)
    → IsBelowHard s
    → IsBelowHard (revoke_mandate id actor from now_iso s).0
unfolding revoke_mandate revoke_mandate_row audit
revoke_mandate-IsBelowHard id actor from now_iso s p = revoked (get_mandate id s)
  where
    revoked :
        (r : Option MandateRow)
        → IsBelowHard (revocation id actor from (revoke_mandate_row id now_iso actor s) r s).0
    revoked none = p
    revoked (some row) = p

pub verify-policies :
    (cfg : Config) (time : Iso) (lower : String → String) (inbox : Inbox) (channel_id verb : String)
    (tokens : List String) (e : String) (now : ℕ) (s : Store)
    → (verify cfg time lower inbox channel_id verb tokens e now s).1.policies ≡ s.policies
unfolding spent
verify-policies cfg time lower inbox channel_id verb tokens e now s =
    kept (verify cfg time lower inbox channel_id verb tokens e now s)
      (verify-accounts cfg time lower inbox channel_id verb tokens e now s)
  where
    kept :
        (o : Auth × Store)
        → Account cfg time lower inbox channel_id verb tokens e now s o
        → o.1.policies ≡ s.policies
    kept (authorized m, s') h = ap (λ (x : Store). x.policies) h.1
    kept (denied r, s') h = ap (λ (x : Store). x.policies) h
    kept (unreachable, s') h = ap (λ (x : Store). x.policies) h
    kept (taken, s') h = ap (λ (x : Store). x.policies) h

pub audit-IsBelowHard :
    (actor action : String) (target : Option String) (detail : List (String × Value))
    (from : Option String) (s : Store)
    → IsBelowHard s
    → IsBelowHard (audit actor action target detail from s)
unfolding audit
audit-IsBelowHard actor action target detail from s p = p

pub revoke_policy-IsBelowHard :
    (id at : String) (s : Store) → IsBelowHard s → IsBelowHard (revoke_policy id at s).0
unfolding revoke_policy update
revoke_policy-IsBelowHard id at s p = rows s.policies p
  where
    rows :
        (ps : List PolicyRow)
        → All (λ (row : PolicyRow). hard_priority < row.priority) ps
        → All
            (λ (row : PolicyRow). hard_priority < row.priority)
            (update policy_key id
              (λ row. if is_none row.revoked_at then record row { revoked_at = some at } else row)
              ps)
    rows [] h = tt
    rows (row ∷ ps) h = elim (Bool-cases (row.id == id)) [
      | inr e ↦ rw e (h.0, rows ps h.1)
      | inl e ↦ rw e (elim (Bool-cases (is_none row.revoked_at)) [
        | inl f ↦ rw f (h.0, rows ps h.1)
        | inr f ↦ rw f (h.0, rows ps h.1)
      ])
    ]

pub revoke_row-IsBelowHard :
    (w : Wiring) (now : ℕ) (authorization_event_id : Option String) (id actor : String)
    (r : Store × ℕ)
    → IsBelowHard r.0
    → IsBelowHard (revoke_row w now authorization_event_id id actor r).0
revoke_row-IsBelowHard w now authorization_event_id id actor (s, changed) p =
    audit-IsBelowHard _ _ _ _ _ s p

enqueue_event-policies :
    (event : Event) (now : ℕ) (s : Store) → (enqueue_event event now s).0.policies ≡ s.policies
unfolding enqueue_event
enqueue_event-policies event now s = ground arith

-- What the poller writes says nothing of the policies.
pub IsBelowHard-IsKept : IsKept IsBelowHard
unfolding set_origin upsert_issue_state set_meta set_cursor
IsBelowHard-IsKept = record {
  stable = record {
    origin = λ issue_id channel anchor at s p. p;
    enqueued = λ event at s p. rw (enqueue_event-policies event at s) p;
  };
  observed = λ issue s p. p;
  marked = λ value s p. p;
  moved = λ at start s p. p;
}
