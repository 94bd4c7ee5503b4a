-- ===== src/Policy/Choice.antt =====
-- `_pick` against a definition that does not sort: the candidates of the least priority, of those
-- the ones of the best rank, of those the newest, folded in the order given.
use opc_stack.Base.{
  ℕ, min, ◌≡◌, refl, sym, ap, ◌∙◌, ◌&&◌, List, [], ◌∷◌, Option, none, some, arith, eqb, select,
}
use opc_stack.Base.Sort.{sort_by, insert_by, select-sort_by}
use opc_stack.Policy.{Candidate, rank, candidate_order, best_rank, settle_ties, pick_sorted, pick}

-- The least priority, with the smaller of two where both are there.
abbrev pub lesser_of : ℕ → Option ℕ → ℕ
lesser_of p none = p
lesser_of p (some q) = min p q

unfoldable pub least : List Candidate → Option ℕ
least [] = none
least (c ∷ cs) = some (lesser_of c.priority (least cs))

abbrev pub of_priority : ℕ → List Candidate → List Candidate
of_priority p cs = select (λ c. eqb c.priority p) cs

abbrev pub settle_at : Option ℕ → List Candidate → Option Candidate
settle_at none cs = none
settle_at (some p) cs = settle_ties (of_priority p cs)

abbrev pub choose : List Candidate → Option Candidate
choose cs = settle_at (least cs) cs

abbrev head_priority : List Candidate → Option ℕ
head_priority [] = none
head_priority (c ∷ cs) = some c.priority

head_priority-insert_by :
    (c : Candidate) (cs : List Candidate)
    → head_priority (insert_by candidate_order c cs)
      ≡ some (lesser_of c.priority (head_priority cs))
unfolding insert_by
head_priority-insert_by c [] = refl
head_priority-insert_by c (d ∷ ds) = ground arith

head_priority-sort_by :
    (cs : List Candidate) → head_priority (sort_by candidate_order cs) ≡ least cs
unfolding sort_by least
head_priority-sort_by [] = refl
head_priority-sort_by (c ∷ cs) =
    head_priority-insert_by c (sort_by candidate_order cs)
    ∙ ap (λ o. some (lesser_of c.priority o)) (head_priority-sort_by cs)

pick_sorted-head : (cs : List Candidate) → pick_sorted cs ≡ settle_at (head_priority cs) cs
unfolding pick_sorted
pick_sorted-head [] = refl
pick_sorted-head (c ∷ cs) = refl

module _ (p : ℕ) where
  best_rank-insert_by :
      (c : Candidate) (cs : List Candidate)
      → best_rank (of_priority p (insert_by candidate_order c cs))
        ≡ best_rank (of_priority p (c ∷ cs))
  unfolding insert_by best_rank
  best_rank-insert_by c [] = refl
  best_rank-insert_by c (d ∷ ds) = ground (arith, best_rank-insert_by c ds)

  best_rank-sort_by :
      (cs : List Candidate)
      → best_rank (of_priority p (sort_by candidate_order cs)) ≡ best_rank (of_priority p cs)
  unfolding sort_by best_rank
  best_rank-sort_by [] = refl
  best_rank-sort_by (c ∷ cs) =
      best_rank-insert_by c (sort_by candidate_order cs) ∙ ground (arith, best_rank-sort_by cs)

  -- Within one priority and one rank the sort keeps the order.
  widest-sort_by :
      (r : ℕ) (cs : List Candidate)
      → select (λ c. eqb (rank c) r) (of_priority p (sort_by candidate_order cs))
        ≡ select (λ c. eqb (rank c) r) (of_priority p cs)
  widest-sort_by r cs =
      both (sort_by candidate_order cs)
      ∙ select-sort_by candidate_order (λ c. eqb c.priority p && eqb (rank c) r)
          (λ x y h k. ground arith) cs
      ∙ sym (both cs)
    where
      both :
          (ds : List Candidate)
          → select (λ c. eqb (rank c) r) (of_priority p ds)
            ≡ select (λ c. eqb c.priority p && eqb (rank c) r) ds
      both [] = refl
      both (d ∷ ds) = ground (arith, both ds)

settle_at-sort_by :
    (o : Option ℕ) (cs : List Candidate) → settle_at o (sort_by candidate_order cs) ≡ settle_at o cs
unfolding settle_ties
settle_at-sort_by none cs = refl
settle_at-sort_by (some p) cs =
    rw (best_rank-sort_by p cs, widest-sort_by p (best_rank (of_priority p cs)) cs)

-- `_pick`, with its sort, computes the choice that does not sort.
pub pick-choose : (cs : List Candidate) → pick cs ≡ choose cs
unfolding pick
pick-choose cs =
    pick_sorted-head (sort_by candidate_order cs)
    ∙ ap (λ o. settle_at o (sort_by candidate_order cs)) (head_priority-sort_by cs)
    ∙ settle_at-sort_by (least cs) cs
