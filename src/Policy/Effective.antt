-- ===== src/Policy/Effective.antt =====
-- What the resolver guarantees of a store: hard rules and operator overrides stand.
use opc_stack.Base.{
  ◌<◌, ◌≡◌, refl, sym, ap, ◌∙◌, ◌⊎◌, ◌↔◌, Bool, true, false, ◌&&◌, List, [], ◌∷◌, ◌++◌, map, Option,
  some, arith, String, ◌&◌, ◌==◌, text_ltb_empty, text_ltb_total, eqb_refl, eq_refl, Bool-cases,
  inl, inr, select, select-append, any, any_none, none_any, not, All, All-append, All-kept,
  All-of_map, All-map, append-nil,
}
use opc_stack.Base.Sort.{sort_by-All, sort_by, insert_by}
use opc_stack.Base.Table.{contains}
use opc_stack.Store.Row.{Store, PolicyRow, MandateRow}
use opc_stack.Store.Policies.{active_policies, active_mandates, is_active_policy, policy_order}
use opc_stack.Policy.{
  Candidate, company_candidate, rank, newest, settle_ties, pick_sorted, best_rank, fold_ties,
  hard_priority, mandate_priority, hard_rules, pick, standing, granted, effective, policy_candidate,
  policy_applies, mandate_candidates, mandate_applies, check, verdict, allowed, restricts, has_list,
  permits, is_locked,
}
use opc_stack.Policy.Json.{bool}
use opc_stack.Policy.Precedence.{In, by_priority, pick_outranked}

In-append : (d : Candidate) (xs ys : List Candidate) → In d xs → In d (xs ++ ys)
In-append d [] ys h = absurd h
In-append d (x ∷ xs) ys (inl e) = inl e
In-append d (x ∷ xs) ys (inr h) = inr (In-append d xs ys h)

-- The mandate is one of the list.
abbrev pub MandateIn : MandateRow → List MandateRow → Type 0
MandateIn m [] = ⊥
MandateIn m (x ∷ xs) = (x ≡ m) ⊎ MandateIn m xs

-- A tail of candidates that one of the others outranks has no influence.
pick_dominated :
    (xs ys : List Candidate) (d : Candidate)
    → In d xs
    → All (λ c. d.priority < c.priority) ys
    → pick (xs ++ ys) ≡ pick xs
pick_dominated xs [] d h k = ap pick (append-nil xs)
pick_dominated xs (y ∷ ys) d h k =
    pick_outranked xs ys y d (In-append d xs ys h) (by_priority k.0) ∙ pick_dominated xs ys d h k.1

newest_one : (h : Candidate) → newest (h ∷ []) ≡ h.created_at
unfolding newest
newest_one h = ground (arith, text_ltb_empty h.created_at, text_ltb_total "" h.created_at)

best_rank_one : (h : Candidate) → best_rank (h ∷ []) ≡ rank h
unfolding best_rank
best_rank_one h = omega arith

settle_ties_one : (h : Candidate) → settle_ties (h ∷ []) ≡ some h
unfolding settle_ties fold_ties
settle_ties_one h = rw (best_rank_one h, eqb_refl (rank h), newest_one h, eq_refl h.created_at)

pick_one : (h : Candidate) → pick (h ∷ []) ≡ some h
unfolding pick pick_sorted sort_by insert_by
pick_one h = rw (eqb_refl h.priority) (settle_ties_one h)

mandate_candidates-priority :
    (rows : List MandateRow) → All (λ c. c.priority ≡ mandate_priority) (mandate_candidates rows)
unfolding mandate_candidates
mandate_candidates-priority [] = tt
mandate_candidates-priority (row ∷ rows) =
    (refl, (refl, (refl, (refl, mandate_candidates-priority rows))))

module _ (s : Store) (company_id : String) (project_id : Option String) (track now : String) where
  granted-priority :
      All (λ c. c.priority ≡ mandate_priority) (granted s company_id project_id track now)
  unfolding granted
  granted-priority = mandate_candidates-priority _

  -- The candidates of a key, of which the resolver picks one.
  abbrev pub standing_for : String → List Candidate
  standing_for key = select (λ c. c.key == key) (standing s company_id project_id track now)

  effective_standing :
      (key : String) (d : Candidate)
      → In d (standing_for key)
      → d.priority < mandate_priority
      → effective s company_id project_id track now key ≡ pick (standing_for key)
  unfolding effective
  effective_standing key d there lt =
      ap pick (
        select-append (λ c. c.key == key) (standing s company_id project_id track now)
          (granted s company_id project_id track now))
      ∙ pick_dominated (standing_for key) _ d there (
          All-kept _ (λ c. c.key == key) (granted s company_id project_id track now)
            (All-map _ (λ c e. omega arith) granted-priority))

module _ (s : Store) (company_id : String) (project_id : Option String) (track now : String) where
  -- No mandate, granted or revoked, changes a key on which a hard rule or an operator's override
  -- stands: with such a candidate the resolver answers the same whatever mandates the store holds.
  pub effective_mandates :
      (key : String) (d : Candidate) (mandates : List MandateRow)
      → In d (standing_for s company_id project_id track now key)
      → d.priority < mandate_priority
      → effective (record s { mandates = mandates }) company_id project_id track now key
        ≡ effective s company_id project_id track now key
  unfolding standing active_policies
  effective_mandates key d mandates there lt =
      effective_standing (record s { mandates = mandates }) company_id project_id track now key d
        there lt
      ∙ sym (effective_standing s company_id project_id track now key d there lt)

  abbrev hard : String → Candidate
  hard key = company_candidate hard_priority "hard" key (bool false)

  -- Behind a hard rule, rows of a larger priority number have no say.
  hard_alone :
      (key : String)
      → All (λ (row : PolicyRow). hard_priority < row.priority) s.policies
      → pick (
          hard key
          ∷ select
              (λ c. c.key == key)
              (map policy_candidate
                  (select (policy_applies company_id project_id track) (active_policies now s))
                ++ granted s company_id project_id track now))
        ≡ some (hard key)
  unfolding active_policies
  hard_alone key rows =
      pick_dominated (hard key ∷ []) _ (hard key) (inl refl) (
        All-kept _ (λ c. c.key == key) _
          (All-append _ _ (granted s company_id project_id track now)
            (All-of_map _ policy_candidate _ (
              All-kept _ (policy_applies company_id project_id track) _
                (sort_by-All policy_order _ _ (All-kept _ (is_active_policy now) s.policies rows))))
            (All-map _ (λ c e. omega arith) (granted-priority s company_id project_id track now))))
      ∙ pick_one (hard key)

  -- As long as no stored policy row has a priority of 10 or less, each of the six hard rules
  -- resolves to False, from the source "hard", whatever policies and mandates the store holds.
  pub effective_hard :
      All (λ (row : PolicyRow). hard_priority < row.priority) s.policies
      → All
          (λ action.
            effective s company_id project_id track now ("actions." & action)
            ≡ some (company_candidate hard_priority "hard" ("actions." & action) (bool false)))
          hard_rules
  unfolding effective standing
  effective_hard rows = (
    hard_alone "actions.production_deploy" rows,
    (
      hard_alone "actions.merge_main" rows,
      (
        hard_alone "actions.publish_public" rows,
        (
          hard_alone "actions.spend_money" rows,
          (
            hard_alone "actions.destructive_delete" rows,
            (hard_alone "actions.grant_access" rows, tt),
          ),
        ),
      ),
    ),
  )

verdict_allowed :
    (a b c d : Bool)
    → verdict a b c d ≡ allowed
    → (a ≡ false) × (b ≡ false) × (c ≡ false) × (d ≡ false)
unfolding verdict
verdict_allowed a b c d h = ground arith

found_in :
    (p : MandateRow → Bool) (ms : List MandateRow)
    → any p ms ≡ true
    → (m : MandateRow) × (p m ≡ true) × MandateIn m ms
found_in p [] h = ground arith
found_in p (x ∷ xs) h = elim (Bool-cases (p x)) [
  | inl e ↦ (x, e, inl refl)
  | inr e ↦ let (m, passes, there) = found_in p xs (rw e at h) in (m, passes, inr there)
]

in_any :
    (p : MandateRow → Bool) (m : MandateRow) (ms : List MandateRow)
    → p m ≡ true
    → MandateIn m ms
    → any p ms ≡ true
in_any p m [] h k = absurd k
in_any p m (x ∷ xs) h (inl e) = rw (ap p e ∙ h)
in_any p m (x ∷ xs) h (inr k) = ground (arith, in_any p m xs h k)

module _ (s : Store) (company_id : String) (project_id : Option String) (track now : String) where
  abbrev pub applicable : List MandateRow
  applicable = select (mandate_applies project_id track) (active_mandates now s)

  -- What an allowed action needs of the mandates and the lock.
  abbrev pub IsPermitted : String → Type 0
  IsPermitted action =
      (contains action hard_rules ≡ false)
      × All (λ m. restricts action m ≡ false) applicable
      × (All (λ m. has_list m ≡ false) applicable
          ⊎ ((m : MandateRow) × (permits action m ≡ true) × MandateIn m applicable))
      × (is_locked (effective s company_id project_id track now "track_locked") ≡ false)

  listed :
      (action : String)
      → (any has_list applicable && not (any (permits action) applicable)) ≡ false
      → All (λ m. has_list m ≡ false) applicable
        ⊎ ((m : MandateRow) × (permits action m ≡ true) × MandateIn m applicable)
  listed action h = elim (Bool-cases (any (permits action) applicable)) [
    | inl e ↦ inr (found_in (permits action) applicable e)
    | inr e ↦ inl (any_none has_list applicable (ground arith))
  ]

  unlisted :
      (action : String)
      → All (λ m. has_list m ≡ false) applicable
        ⊎ ((m : MandateRow) × (permits action m ≡ true) × MandateIn m applicable)
      → (any has_list applicable && not (any (permits action) applicable)) ≡ false
  unlisted action (inl h) = rw (none_any has_list applicable h)
  unlisted action (inr (m, e, there)) = ground (arith, in_any (permits action) m applicable e there)

  -- An action is allowed exactly when it is no hard rule, no mandate that is active and in scope
  -- restricts it, one of those mandates permits it if any of them has a list of allowed actions,
  -- and the track is not locked.
  pub check_allowed :
      (action : String)
      → (check s company_id project_id track action now ≡ allowed) ↔ IsPermitted action
  unfolding check
  check_allowed action = (
    (λ h.
        let (safe, free, fine, open_) = verdict_allowed _ _ _ _ h in
        (safe, any_none (restricts action) applicable free, listed action fine, open_)),
    (λ h. simp (h.0, none_any (restricts action) applicable h.1, unlisted action h.2, h.3)),
  )
