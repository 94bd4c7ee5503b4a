-- ===== src/Adaptive/Measured.antt =====
-- What the tally of the work adds up to.
use opc_stack.Base.{
  ℕ, suc, ◌+◌, ◌*◌, ◌≤◌, List, [], ◌∷◌, Option, none, some, String, arith, eqb, ◌==◌, length,
  Bool-cases, inl, inr,
}
use opc_stack.Config.{Iso}
use opc_stack.Event.{text_or}
use opc_stack.Adaptive.{WorkRun, Tally, add_work, overlap_of, run_overlap, tally}

overlap_of-le :
    (began ended : Option ℕ) (now window : ℕ) → overlap_of began ended now window ≤ window
unfolding overlap_of
overlap_of-le none ended now window = omega arith
overlap_of-le (some b) none now window = omega arith
overlap_of-le (some b) (some e) now window = ground arith

abbrev pub IsBounded : ℕ → ℕ → Tally → Type 0
IsBounded runs window t = (t.core + t.lab ≤ t.counted * window) × (t.counted ≤ runs)

add_work-IsBounded :
    (track : Option String) (overlap runs window : ℕ) (t : Tally)
    → overlap ≤ window
    → IsBounded runs window t
    → IsBounded (suc runs) window (add_work track overlap t)
add_work-IsBounded none overlap runs window t o h = (h.0, omega arith)
add_work-IsBounded (some track) overlap runs window t o h = elim (Bool-cases (track == "core")) [
  | inl e ↦ rw e (let k = h.0 in omega arith, omega arith)
  | inr e ↦ rw e (elim (Bool-cases (track == "lab")) [
    | inl f ↦ rw f (let k = h.0 in omega arith, omega arith)
    | inr f ↦ rw f (h.0, omega arith)
  ])
]

-- No run counts for more than the window, and none is counted twice: the work of both tracks is at
-- most the window for each run that is counted, and at most the runs given are counted.
pub tally_bounds :
    (time : Iso) (agent_track : String → Option String) (now window : ℕ) (runs : List WorkRun)
    → IsBounded (length runs) window (tally time agent_track now window runs)
unfolding tally
tally_bounds time agent_track now window [] = (omega arith, omega arith)
tally_bounds time agent_track now window (run ∷ runs) =
    let h = tally_bounds time agent_track now window runs in
    elim (Bool-cases (eqb (run_overlap time agent_track now window run) 0)) [
      | inl e ↦ rw e (h.0, omega arith)
      | inr e ↦ rw e (
          add_work-IsBounded (agent_track (text_or run.agent_id ""))
            (run_overlap time agent_track now window run) (length runs) window
            (tally time agent_track now window runs) (overlap_of-le _ _ now window) h)
    ]
