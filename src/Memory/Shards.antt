-- ===== src/Memory/Shards.antt =====
-- patches/hermes/memory_tencentdb/ingress_log.py: `sweep`, which deletes the expired shards of the
-- log. A day is the ordinal of `date`.
use Prim.Native.Char.{code}
use opc_stack.Base.{
  ℕ, zero, suc, ◌+◌, ◌-◌, ◌*◌, String, Bool, not, ◌&&◌, ◌||◌, Option, none, some, List, [], ◌∷◌,
  ◌==◌, if◌then◌else◌, leb, ltb, length, select, is_some,
}
use opc_stack.Poller.Pattern.{after_prefix}

abbrev pub chain {ℓ κ} : {A : Type ℓ} {B : Type κ} → Option A → (A → Option B) → Option B
chain none f = none
chain (some a) f = f a

pub record Summary : Type 0 where
  pub deleted : ℕ
  pub kept : ℕ
  pub skipped : ℕ

-- What a sweep did: the summary so far, and the names it unlinked.
pub record Swept : Type 0 where
  pub summary : Summary
  pub unlinked : List String

abbrev pub min_retain_shards : ℕ
min_retain_shards = 3

-- `digit` is the value of a decimal digit of Unicode, from its code point: what `\d` matches and
-- `int` reads. `ordinal` is `date(year, month, day)`, which may raise ValueError. `locked` says where
-- `os.unlink` raises OSError.
module _ (digit : ℕ → Option ℕ) where
  unfoldable pub digits : ℕ → String → ℕ → Option (ℕ × String)
  digits n String.[] acc = if leb n 0 then some (acc, String.[]) else none
  digits n (String.◌∷◌ c s) acc = elim n [
    | Prim.Native.Nat.zero ↦ some (acc, String.◌∷◌ c s)
    | Prim.Native.Nat.suc m ↦ chain (digit (code c)) (λ d. digits m s (acc * 10 + d))
  ]

  -- The rest of the pattern, behind its prefix.
  unfoldable pub dated : String → Option (ℕ × ℕ × ℕ)
  unfolding digits after_prefix
  dated s = chain (digits 4 s 0) (λ year. chain (after_prefix "-" year.1) (λ a.
      chain (digits 2 a 0) (λ month. chain (after_prefix "-" month.1) (λ b.
        chain (digits 2 b 0) (λ day.
          if day.1 == ".jsonl" || day.1 == ".jsonl\n"
          then some (year.0, month.0, day.0)
          else none)))))

  -- `_SHARD_RE.match(name)` and `_DEBUG_SHARD_RE.match(name)`, by the prefix
  unfoldable pub shard : String → String → Option (ℕ × ℕ × ℕ)
  unfolding after_prefix dated
  shard prefix name = chain (after_prefix prefix name) dated

  abbrev pub is_stray : String → Bool
  is_stray name =
      not (is_some (shard "memory-ingress-" name))
      && not (is_some (shard "memory-ingress-debug-" name))

  -- The names of one kind with their days; `none` where `date` raises.
  unfoldable pub shards_of :
      (ℕ → ℕ → ℕ → Option ℕ) → String → List String → Option (List (String × ℕ))
  unfolding shard
  shards_of ordinal prefix [] = some []
  shards_of ordinal prefix (name ∷ names) =
      let rest = shards_of ordinal prefix names in
      elim (shard prefix name) [
        | none ↦ rest
        | some (y, m, d) ↦
            chain (ordinal y m d) (λ day. chain rest (λ more. some ((name, day) ∷ more)))
      ]

abbrev pub count_deleted : String → Swept → Swept
count_deleted name w = record {
  summary = record w.summary { deleted = w.summary.deleted + 1 };
  unlinked = name ∷ w.unlinked;
}

abbrev pub count_kept : ℕ → Swept → Swept
count_kept n w = record w { summary = record w.summary { kept = w.summary.kept + n } }

abbrev pub count_skipped : ℕ → Swept → Swept
count_skipped n w = record w { summary = record w.summary { skipped = w.summary.skipped + n } }

module _ (locked : String → Bool) where
  abbrev pub sweep_shard : ℕ → String × ℕ → Swept → Swept
  sweep_shard cutoff (name, day) w =
      if ltb day cutoff
      then (if locked name then count_skipped 1 w else count_deleted name w)
      else count_kept 1 w

  unfoldable pub sweep_shards : ℕ → List (String × ℕ) → Swept → Swept
  sweep_shards cutoff [] w = w
  sweep_shards cutoff (s ∷ more) w = sweep_shards cutoff more (sweep_shard cutoff s w)

  -- `today - days` raises OverflowError where it would be before the first day, 1.
  abbrev pub prune : (today days : ℕ) → List (String × ℕ) → Swept → Option Swept
  prune today days shards w =
      if leb (length shards) min_retain_shards
      then some (count_kept (length shards) w)
      else if leb today days
      then none
      else some (sweep_shards (today - days) shards w)

module _ (digit : ℕ → Option ℕ) (ordinal : ℕ → ℕ → ℕ → Option ℕ) (locked : String → Bool) where
  abbrev pub sweep_kind : (today days : ℕ) → String → List String → Swept → Option Swept
  sweep_kind today days prefix names w =
      chain (shards_of digit ordinal prefix names) (λ shards. prune locked today days shards w)

  -- `none` where it raises.
  unfoldable pub sweep :
      (today retention_days debug_retention_days : ℕ) → List String → Option Swept
  unfolding shard shards_of sweep_shards
  sweep today retention_days debug_retention_days names =
      chain
        (sweep_kind today retention_days "memory-ingress-" names (record {
          summary = record {
            deleted = 0;
            kept = 0;
            skipped = length (select (is_stray digit) names);
          };
          unlinked = [];
        }))
        (sweep_kind today debug_retention_days "memory-ingress-debug-" names)
