-- ===== src/Policy/Precedence.antt =====
-- The order of precedence: a candidate that another one outranks has no influence.
use opc_stack.Base.{
  ℕ, ◌≤◌, ◌<◌, min, max, ◌≡◌, refl, sym, subst, ap, ◌∙◌, ◌⊎◌, Bool, true, false, List, [], ◌∷◌,
  ◌++◌, Option, none, some, arith, eqb, ◌==◌, if◌then◌else◌, Bool-cases, inl, inr, select,
  select-append, text_ltb, text_ltb_trans, text_ltb_asym, text_ltb_total, text_ltb_irrefl,
  text_ltb→ne, String,
}
use opc_stack.Policy.{Candidate, rank, best_rank, newest, combine, settle_ties, pick}
use opc_stack.Policy.Choice.{least, lesser_of, of_priority, settle_at, pick-choose}

abbrev pub In : Candidate → List Candidate → Type 0
In d [] = ⊥
In d (x ∷ xs) = (x ≡ d) ⊎ In d xs

-- `d` decides before `c`: a smaller priority number, then a narrower scope, then a later grant.
pub data Outranks (d c : Candidate) : Type 0 where
  by_priority : d.priority < c.priority → Outranks d c
  by_scope : d.priority ≡ c.priority → rank c < rank d → Outranks d c
  by_time :
      d.priority ≡ c.priority
      → rank d ≡ rank c
      → text_ltb c.created_at d.created_at ≡ true
      → Outranks d c

least-insert :
    (xs ys : List Candidate) (c : Candidate)
    → least (xs ++ c ∷ ys) ≡ some (lesser_of c.priority (least (xs ++ ys)))
unfolding least
least-insert [] ys c = refl
least-insert (x ∷ xs) ys c = rw (least-insert xs ys c) (go (least (xs ++ ys)))
  where
    go :
        (o : Option ℕ)
        → some (min x.priority (lesser_of c.priority o))
          ≡ some (min c.priority (lesser_of x.priority o))
    go none = ground arith
    go (some n) = ground arith

pub least-le :
    (d : Candidate) (zs : List Candidate)
    → In d zs
    → (m : ℕ) × (least zs ≡ some m) × (m ≤ d.priority)
unfolding least
least-le d [] h = absurd h
least-le d (x ∷ xs) (inl e) = (lesser_of x.priority (least xs), refl, go (least xs))
  where
    go : (o : Option ℕ) → lesser_of x.priority o ≤ d.priority
    go none = ground arith
    go (some n) = ground arith
least-le d (x ∷ xs) (inr h) =
    let (m, e, le) = least-le d xs h in
    (min x.priority m, ap (λ o. some (lesser_of x.priority o)) e, omega arith)

-- A test of the candidates that `c` fails does not see `c`.
select_without :
    (p : Candidate → Bool) (xs ys : List Candidate) (c : Candidate)
    → p c ≡ false
    → select p (xs ++ c ∷ ys) ≡ select p (xs ++ ys)
select_without p [] ys c h = rw h
select_without p (x ∷ xs) ys c h = ground (arith, select_without p xs ys c h)

select_with :
    (p : Candidate → Bool) (xs ys : List Candidate) (c : Candidate)
    → p c ≡ true
    → select p (xs ++ c ∷ ys) ≡ select p xs ++ c ∷ select p ys
select_with p [] ys c h = rw h
select_with p (x ∷ xs) ys c h = ground (arith, select_with p xs ys c h)

In-select :
    (p : Candidate → Bool) (d : Candidate) (zs : List Candidate)
    → p d ≡ true
    → In d zs
    → In d (select p zs)
In-select p d [] h k = absurd k
In-select p d (x ∷ xs) h (inl e) = rw (ap p e ∙ h) (inl e)
In-select p d (x ∷ xs) h (inr k) = elim (Bool-cases (p x)) [
  | inl e ↦ rw e (inr (In-select p d xs h k))
  | inr e ↦ rw e (In-select p d xs h k)
]

best_rank-insert :
    (xs ys : List Candidate) (c : Candidate)
    → best_rank (xs ++ c ∷ ys) ≡ max (rank c) (best_rank (xs ++ ys))
unfolding best_rank
best_rank-insert [] ys c = refl
best_rank-insert (x ∷ xs) ys c = omega (arith, best_rank-insert xs ys c)

rank-le-best : (d : Candidate) (zs : List Candidate) → In d zs → rank d ≤ best_rank zs
unfolding best_rank
rank-le-best d [] h = absurd h
rank-le-best d (x ∷ xs) (inl e) = omega (arith, ap rank e)
rank-le-best d (x ∷ xs) (inr h) = omega (arith, rank-le-best d xs h)

abbrev later : String → String → String
later rest t = if text_ltb rest t then t else rest

later_swap : (n a b : String) → later (later n a) b ≡ later (later n b) a
later_swap n a b = ground (
  arith,
  text_ltb_total a b,
  text_ltb_asym a b,
  text_ltb_asym b a,
  text_ltb_trans n a b,
  text_ltb_trans n b a,
)

newest-insert :
    (xs ys : List Candidate) (c : Candidate)
    → newest (xs ++ c ∷ ys) ≡ later (newest (xs ++ ys)) c.created_at
unfolding newest
newest-insert [] ys c = refl
newest-insert (x ∷ xs) ys c =
    ap (λ n. later n x.created_at) (newest-insert xs ys c)
    ∙ later_swap (newest (xs ++ ys)) c.created_at x.created_at

newest_upper :
    (d : Candidate) (zs : List Candidate) → In d zs → text_ltb (newest zs) d.created_at ≡ false
unfolding newest
newest_upper d [] h = absurd h
newest_upper d (x ∷ xs) (inl e) =
    ground (arith, ap (λ (c : Candidate). c.created_at) e, text_ltb_irrefl d.created_at)
newest_upper d (x ∷ xs) (inr h) =
    ground (arith, newest_upper d xs h, text_ltb_trans (newest xs) x.created_at d.created_at)

older_than_newest :
    (c d : Candidate) (zs : List Candidate)
    → In d zs
    → text_ltb c.created_at d.created_at ≡ true
    → text_ltb c.created_at (newest zs) ≡ true
older_than_newest c d zs h older = ground (
  arith,
  newest_upper d zs h,
  text_ltb_total d.created_at (newest zs),
  text_ltb_trans c.created_at d.created_at (newest zs),
)

module _ (xs ys : List Candidate) (c d : Candidate) (there : In d (xs ++ ys)) where
  -- Among candidates of one priority.
  same_rank-newest :
      text_ltb c.created_at d.created_at ≡ true
      → combine (select (λ x. x.created_at == newest (xs ++ c ∷ ys)) (xs ++ c ∷ ys))
        ≡ combine (select (λ x. x.created_at == newest (xs ++ ys)) (xs ++ ys))
  same_rank-newest older =
      let before = older_than_newest c d (xs ++ ys) there older in
      let same : newest (xs ++ c ∷ ys) ≡ newest (xs ++ ys) =
        newest-insert xs ys c ∙ rw (text_ltb_asym c.created_at (newest (xs ++ ys)) before) in
      rw same (
        ap combine (
          select_without (λ x. x.created_at == newest (xs ++ ys)) xs ys c
            (text_ltb→ne c.created_at (newest (xs ++ ys)) before)))

module _ (xs ys : List Candidate) (c d : Candidate) (there : In d (xs ++ ys)) where
  best_rank_same : rank c ≤ rank d → best_rank (xs ++ c ∷ ys) ≡ best_rank (xs ++ ys)
  best_rank_same le = omega (arith, best_rank-insert xs ys c, rank-le-best d (xs ++ ys) there)

  settle_ties_narrower : rank c < rank d → settle_ties (xs ++ c ∷ ys) ≡ settle_ties (xs ++ ys)
  unfolding settle_ties
  settle_ties_narrower lt = rw (
    best_rank_same (omega arith),
    select_without (λ x. eqb (rank x) (best_rank (xs ++ ys))) xs ys c
        (ground (arith, rank-le-best d (xs ++ ys) there)),
  )

  settle_ties_newer :
      rank d ≡ rank c
      → text_ltb c.created_at d.created_at ≡ true
      → settle_ties (xs ++ c ∷ ys) ≡ settle_ties (xs ++ ys)
  unfolding settle_ties
  settle_ties_newer e older =
      let best = best_rank_same (omega arith) in
      let test : Candidate → Bool = λ x. eqb (rank x) (best_rank (xs ++ ys)) in
      elim (Bool-cases (test c)) [
        | inr out ↦ rw (best, select_without test xs ys c out)
        | inl kept ↦
            rw (best, select_with test xs ys c kept, select-append test xs ys)
              (same_rank-newest (select test xs) (select test ys) c d
                (subst (In d) (select-append test xs ys)
                  (In-select test d (xs ++ ys) (ground arith) there))
                older)
      ]

settle_ties_outranked :
    (xs ys : List Candidate) (c d : Candidate)
    → In d (xs ++ ys)
    → d.priority ≡ c.priority
    → Outranks d c
    → settle_ties (xs ++ c ∷ ys) ≡ settle_ties (xs ++ ys)
settle_ties_outranked xs ys c d there e (by_priority lt) = absurd (omega arith)
settle_ties_outranked xs ys c d there e (by_scope _ lt) = settle_ties_narrower xs ys c d there lt
settle_ties_outranked xs ys c d there e (by_time _ r older) =
    settle_ties_newer xs ys c d there r older

priority_of : {d c : Candidate} → Outranks d c → d.priority ≤ c.priority
priority_of (by_priority lt) = omega arith
priority_of (by_scope e _) = omega arith
priority_of (by_time e _ _) = omega arith

outranked_at :
    (xs ys : List Candidate) (c d : Candidate) (m : ℕ)
    → In d (xs ++ ys)
    → m ≤ d.priority
    → Outranks d c
    → settle_ties (of_priority m (xs ++ c ∷ ys)) ≡ settle_ties (of_priority m (xs ++ ys))
outranked_at xs ys c d m there low o =
    let test : Candidate → Bool = λ x. eqb x.priority m in
    elim (Bool-cases (test c)) [
      | inr out ↦ ap settle_ties (select_without test xs ys c out)
      | inl kept ↦
          rw (select_with test xs ys c kept, select-append test xs ys)
            (settle_ties_outranked (select test xs) (select test ys) c d
              (subst (In d) (select-append test xs ys)
                (In-select test d (xs ++ ys) (ground (arith, priority_of o)) there))
              (ground (arith, priority_of o)) o)
    ]

-- A candidate that another one outranks (a smaller priority number, then a narrower scope, then a
-- later grant) can be left out: wherever it stands, `_pick` answers the same winner, value and
-- provenance included.
pub pick_outranked :
    (xs ys : List Candidate) (c d : Candidate)
    → In d (xs ++ ys)
    → Outranks d c
    → pick (xs ++ c ∷ ys) ≡ pick (xs ++ ys)
pick_outranked xs ys c d there o =
    let (m, lowest, le) = least-le d (xs ++ ys) there in
    let low = priority_of o in
    let lowest' : least (xs ++ c ∷ ys) ≡ some m =
      least-insert xs ys c ∙ rw lowest (ap {B = Option ℕ} some (omega arith)) in
    pick-choose (xs ++ c ∷ ys)
    ∙ ap (λ o. settle_at o (xs ++ c ∷ ys)) lowest'
    ∙ outranked_at xs ys c d m there le o
    ∙ sym (ap (λ o. settle_at o (xs ++ ys)) lowest)
    ∙ sym (pick-choose (xs ++ ys))
