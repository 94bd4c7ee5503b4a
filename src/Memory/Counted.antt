-- ===== src/Memory/Counted.antt =====
-- patches/hermes/memory_tencentdb/ingress_log.py: the summary of `sweep` counts each file once.
use Prim.Native.Char.{code}
use opc_stack.Base.{
  ◌≡◌, refl, ap, ℕ, ◌+◌, ◌-◌, ◌<◌, String, Bool, true, false, ◌&&◌, Option, none, some, List, [],
  ◌∷◌, Bool-cases, Option-cases, inl, inr, leb, eqb, eqb→eq, length, select, is_some, all, arith,
}
use opc_stack.Poller.Pattern.{after_prefix}
use opc_stack.Memory.Shards.{
  Summary, Swept, chain, digits, dated, shard, is_stray, shards_of, sweep_shard, sweep_shards,
  prune, sweep, count_kept, min_retain_shards,
}

-- The one text in front of the other.
unfoldable prepend : (p q : String) → String
prepend String.[] q = q
prepend (String.◌∷◌ c p) q = String.◌∷◌ c (prepend p q)

after_prefix-prepend :
    (p q s : String) → after_prefix (prepend p q) s ≡ chain (after_prefix p s) (after_prefix q)
unfolding after_prefix prepend
after_prefix-prepend String.[] q s = refl
after_prefix-prepend (String.◌∷◌ c p) q String.[] = refl
after_prefix-prepend (String.◌∷◌ c p) q (String.◌∷◌ d s) =
    ground (arith, after_prefix-prepend p q s)

after_prefix-debug :
    (s : String)
    → after_prefix "memory-ingress-debug-" s
      ≡ chain (after_prefix "memory-ingress-" s) (after_prefix "debug-")
unfolding prepend
after_prefix-debug s = after_prefix-prepend "memory-ingress-" "debug-" s

-- The files that a summary counts.
abbrev pub total : Summary → ℕ
total s = s.deleted + s.kept + s.skipped

module _ (digit : ℕ → Option ℕ) where
  dated-debug :
      (s : String)
      → digit 100 ≡ none
      → is_some (after_prefix "debug-" s) ≡ true
      → dated digit s ≡ none
  unfolding after_prefix digits dated
  dated-debug String.[] h k = ground arith
  dated-debug (String.◌∷◌ c s) h k = elim (Bool-cases (eqb 100 (code c))) [
    | inl e ↦ ground (arith, ap digit (eqb→eq 100 (code c) e))
    | inr e ↦ ground arith
  ]

  -- No name matches both patterns.
  shard_disjoint :
      (name : String)
      → digit 100 ≡ none
      → is_some (shard digit "memory-ingress-" name)
          && is_some (shard digit "memory-ingress-debug-" name)
        ≡ false
  unfolding shard
  shard_disjoint name h = elim (Option-cases (after_prefix "memory-ingress-" name)) [
    | inl e ↦ ground (arith, after_prefix-debug name)
    | inr (r, e) ↦ elim (Bool-cases (is_some (after_prefix "debug-" r))) [
      | inl k ↦ ground (arith, after_prefix-debug name, dated-debug r h k)
      | inr k ↦ ground (arith, after_prefix-debug name)
    ]
  ]

  length-kinds :
      (names : List String)
      → digit 100 ≡ none
      → length (select (is_stray digit) names)
          + length (select (λ name. is_some (shard digit "memory-ingress-" name)) names)
          + length (select (λ name. is_some (shard digit "memory-ingress-debug-" name)) names)
        ≡ length names
  length-kinds [] h = refl
  length-kinds (name ∷ names) h = ground (arith, length-kinds names h, shard_disjoint name h)

module _ (digit : ℕ → Option ℕ) (ordinal : ℕ → ℕ → ℕ → Option ℕ) where
  -- Whether the day that a shard is named after exists.
  abbrev pub is_dated : String → String → Bool
  is_dated prefix name = elim (shard digit prefix name) [
    | none ↦ true
    | some (y, m, d) ↦ is_some (ordinal y m d)
  ]

  shards_of-dated :
      (prefix : String) (names : List String)
      → all (is_dated prefix) names ≡ true
      → (shards : List (String × ℕ)) × (shards_of digit ordinal prefix names ≡ some shards)
        × (length shards ≡ length (select (λ name. is_some (shard digit prefix name)) names))
  unfolding shards_of
  shards_of-dated prefix [] h = ([], refl, refl)
  shards_of-dated prefix (name ∷ names) h = elim (Option-cases (shard digit prefix name)) [
    | inl e ↦
        let (shards, found, n) = shards_of-dated prefix names (ground arith) in
        (shards, ground arith, ground arith)
    | inr ((y, m, d), e) ↦ elim (Option-cases (ordinal y m d)) [
      | inl k ↦ ground arith
      | inr (day, k) ↦
          let (shards, found, n) = shards_of-dated prefix names (ground arith) in
          ((name, day) ∷ shards, ground arith, ground arith)
    ]
  ]

module _ (locked : String → Bool) where
  total-sweep_shards :
      (cutoff : ℕ) (shards : List (String × ℕ)) (w : Swept)
      → total (sweep_shards locked cutoff shards w).summary ≡ total w.summary + length shards
  unfolding sweep_shards
  total-sweep_shards cutoff [] w = omega arith
  total-sweep_shards cutoff ((name, day) ∷ more) w =
      ground (arith, total-sweep_shards cutoff more (sweep_shard locked cutoff (name, day) w))

  total-prune :
      (today days : ℕ) (shards : List (String × ℕ)) (w : Swept)
      → days < today
      → (v : Swept) × (prune locked today days shards w ≡ some v)
        × (total v.summary ≡ total w.summary + length shards)
  total-prune today days shards w h = elim (Bool-cases (leb (length shards) min_retain_shards)) [
    | inl e ↦ (count_kept (length shards) w, ground arith, ground arith)
    | inr e ↦ (
      sweep_shards locked (today - days) shards w,
      ground arith,
      total-sweep_shards (today - days) shards w,
    )
  ]

module _ (digit : ℕ → Option ℕ) (ordinal : ℕ → ℕ → ℕ → Option ℕ) (locked : String → Bool) where
  -- Where the letter "d" is no digit, both retentions end after the first day and every shard is named
  -- after a day that exists, a sweep returns, and its summary counts every file of the directory once,
  -- as deleted, kept or skipped.
  pub sweep-counted :
      (today retention_days debug_retention_days : ℕ) (names : List String)
      → digit 100 ≡ none
      → retention_days < today
      → debug_retention_days < today
      → all (is_dated digit ordinal "memory-ingress-") names ≡ true
      → all (is_dated digit ordinal "memory-ingress-debug-") names ≡ true
      → (v : Swept) × (sweep digit ordinal locked today retention_days debug_retention_days names
          ≡ some v)
        × (total v.summary ≡ length names)
  unfolding sweep
  sweep-counted today days debug_days names h r d a b =
      let (plain, p, n) = shards_of-dated digit ordinal "memory-ingress-" names a in
      let (debug, q, m) = shards_of-dated digit ordinal "memory-ingress-debug-" names b in
      let start : Swept = record {
        summary = record {
          deleted = 0;
          kept = 0;
          skipped = length (select (is_stray digit) names);
        };
        unlinked = [];
      } in
      let (v, e, t) = total-prune locked today days plain start r in
      let (w, f, u) = total-prune locked today debug_days debug v d in
      (w, ground (arith, p, q, e, f), omega (arith, t, u, n, m, length-kinds digit names h))
