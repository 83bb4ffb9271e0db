-- ===== src/Mcas/Tests.antt =====
-- Two words of a small memory.
use data_structure_benchmark.Base.{none, List, [], ◌∷◌, arith}
use data_structure_benchmark.Tm.{started}
use data_structure_benchmark.Mcas.{Memory, store}
use data_structure_benchmark.Mcas.Spec.{Swap, swap, mcas}
use data_structure_benchmark.Mcas.LockNoIf
use data_structure_benchmark.Mcas.Laws.{Agrees, Fits, no_if-mcas}
use data_structure_benchmark.Mcas.Select.{Call, Functions, mcas_htm_no_if, set_mcas_type}
use data_structure_benchmark.Mcas.Select.Laws.{AllHonour, selected-Honours}

-- 5 at address 8, 6 at address 16, 0 elsewhere
abbrev memory : Memory
memory = store (store (λ a. 0) 8 5) 16 6

abbrev words : List Swap
words = swap 8 5 1 ∷ swap 16 6 2 ∷ swap 24 0 3 ∷ swap 32 0 4 ∷ []

words-Fits : Fits 40 words
words-Fits = (
  omega arith,
  omega arith,
  (omega arith, omega arith, (omega arith, omega arith, (omega arith, omega arith, tt))),
)

no_if-mcas_example :
    Agrees 40 (LockNoIf.cas 40 8 5 1 memory) (mcas (swap 8 5 1 ∷ []) memory)
    × Agrees 40 (LockNoIf.dcas 40 8 5 1 16 6 2 memory) (mcas (swap 8 5 1 ∷ swap 16 6 2 ∷ []) memory)
    × Agrees 40
        (LockNoIf.tcas 40 8 5 1 16 6 2 24 0 3 memory)
        (mcas (swap 8 5 1 ∷ swap 16 6 2 ∷ swap 24 0 3 ∷ []) memory)
    × Agrees 40 (LockNoIf.qcas 40 8 5 1 16 6 2 24 0 3 32 0 4 memory) (mcas words memory)
no_if-mcas_example = no_if-mcas 8 5 1 16 6 2 24 0 3 32 0 4 memory 40 (omega arith) words-Fits

-- a processor that runs the first transaction
abbrev call : Call
call = record { tries = record { rounds = started ∷ []; exchanges = [] }; trash = 40 }

abbrev unset : Functions
unset = record {
  cas = λ c a0 o0 n0 m. none;
  dcas = λ c a0 o0 n0 a1 o1 n1 m. none;
  tcas = λ c a0 o0 n0 a1 o1 n1 a2 o2 n2 m. none;
  qcas = λ c a0 o0 n0 a1 o1 n1 a2 o2 n2 a3 o3 n3 m. none;
}

selected-Honours_example :
    AllHonour (set_mcas_type mcas_htm_no_if unset) call 8 5 1 16 6 2 24 0 3 32 0 4 memory
selected-Honours_example =
    selected-Honours mcas_htm_no_if unset call 8 5 1 16 6 2 24 0 3 32 0 4 memory tt (omega arith)
      words-Fits
