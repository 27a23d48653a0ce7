-- ===== src/Fifo/Tests.antt =====
-- The FIFO on concrete bytes, and its theorems at a FIFO that goes round the end of its buffer.
use icariusos.Base.{◌≡◌, refl, arith, true, false, none, some, List, [], ◌∷◌, set, replicate}
use icariusos.Fifo.{Fifo, fifo_init, fifo_enqueue, fifo_dequeue}
use icariusos.Fifo.Invariant.{IsValid, HoldsValid, init-IsValid}
use icariusos.Fifo.Refinement.{queue_run, Op, put, get, run, run_refines}

-- 8, then 9, round the end of the buffer.
abbrev wrapped : Fifo
wrapped = record { buffer = set (set (replicate 128 0) 127 8) 0 9; head = 1; tail = 127; count = 2 }

abbrev script : List Op
script = put 5 ∷ get ∷ get ∷ get ∷ get ∷ []

wrapped-IsValid : IsValid wrapped
wrapped-IsValid = omega arith

run-wrapped :
    run (some wrapped) script
    ≡ (true, none) ∷ (true, some 8) ∷ (true, some 9) ∷ (true, some 5) ∷ (false, none) ∷ []
unfolding run fifo_enqueue fifo_dequeue
run-wrapped = refl

init-IsValid_example : HoldsValid (fifo_init (some (record wrapped { head = 200 })))
init-IsValid_example = init-IsValid (record wrapped { head = 200 }) refl

run_refines_example : run (some wrapped) script ≡ queue_run (8 ∷ 9 ∷ []) script
run_refines_example = run_refines script wrapped wrapped-IsValid
