-- ===== src/Tests/Pruned.antt =====
-- Tests of Memory.Shards, and the example that its theorem applies to.
use opc_stack.Base.{
  ◌≡◌, refl, ℕ, ◌+◌, ◌-◌, ◌*◌, String, Bool, true, false, ◌&&◌, List, [], ◌∷◌, ◌==◌, Option, none,
  some, all, length, leb, if◌then◌else◌, arith,
}
use opc_stack.Memory.Shards.{Swept, shard, sweep}
use opc_stack.Memory.Counted.{total, is_dated, sweep-counted}

abbrev digit : ℕ → Option ℕ
digit c = if leb 48 c && leb c 57 then some (c - 48) else none

-- A calendar of twelve months of thirty-one days.
abbrev ordinal : ℕ → ℕ → ℕ → Option ℕ
ordinal y m d =
    if leb 1 m && leb m 12 && leb 1 d && leb d 31 then some (y * 372 + m * 31 + d) else none

abbrev today : ℕ
today = 2026 * 372 + 8 * 31 + 20

abbrev locked : String → Bool
locked name = name == "memory-ingress-2026-05-02.jsonl"

abbrev log_files : List String
log_files =
    "memory-ingress-2026-05-01.jsonl" ∷ "memory-ingress-2026-05-02.jsonl"
    ∷ "memory-ingress-debug-2026-05-02.jsonl" ∷ "notes.txt" ∷ "memory-ingress-2026-08-19.jsonl"
    ∷ "memory-ingress-2026-08-20.jsonl" ∷ []

sweep_of_log_files :
    sweep digit ordinal locked today 30 2 log_files
    ≡ some (record {
      summary = record { deleted = 1; kept = 3; skipped = 2 };
      unlinked = "memory-ingress-2026-05-01.jsonl" ∷ [];
    })
unfolding sweep
sweep_of_log_files = refl

-- Four old shards all go: the floor is a test of how many there are, not of how many stay.
sweep_of_old_files :
    sweep digit ordinal
      (λ _. false)
      today
      30
      2
      ("memory-ingress-2026-01-01.jsonl" ∷ "memory-ingress-2026-01-02.jsonl"
        ∷ "memory-ingress-2026-01-03.jsonl" ∷ "memory-ingress-2026-01-04.jsonl" ∷ [])
    ≡ some (record {
      summary = record { deleted = 4; kept = 0; skipped = 0 };
      unlinked =
          "memory-ingress-2026-01-04.jsonl" ∷ "memory-ingress-2026-01-03.jsonl"
          ∷ "memory-ingress-2026-01-02.jsonl" ∷ "memory-ingress-2026-01-01.jsonl" ∷ [];
    })
unfolding sweep
sweep_of_old_files = refl

-- A name that has the form of a shard and names no day stops the sweep.
sweep_of_no_day :
    sweep digit ordinal locked today 30 2 ("memory-ingress-2026-13-01.jsonl" ∷ []) ≡ none
unfolding sweep
sweep_of_no_day = refl

all_dated : all (is_dated digit ordinal "memory-ingress-") log_files ≡ true
unfolding shard
all_dated = refl

all_debug_dated : all (is_dated digit ordinal "memory-ingress-debug-") log_files ≡ true
unfolding shard
all_debug_dated = refl

sweep-counted_example :
    (v : Swept) × (sweep digit ordinal locked today 30 2 log_files ≡ some v)
    × (total v.summary ≡ length log_files)
sweep-counted_example =
    sweep-counted digit ordinal locked today 30 2 log_files refl (omega arith) (omega arith)
      all_dated all_debug_dated
