-- ===== src/Proc/Tests.antt =====
-- The file with its usual contents, and the theorems of this part at it.
use wslcompat.Prelude.{
  ℕ, ◌+◌, ◌≡◌, refl, List, [], ◌∷◌, ◌++◌, ltb, if◌then◌else◌, ret, fail, efault,
}
use wslcompat.Prelude.Bytes.{codes}
use wslcompat.Proc.MinAddr.{mmap_min_addr_read}
use wslcompat.Proc.MinAddr.Laws.{read_all}
use wslcompat.Proc.Mem.{Transfer, read, readv, pwrite}
use wslcompat.Proc.Mem.Laws.{run, run-position}

abbrev text : List ℕ
text = codes "4096" ++ 10 ∷ []

two_reads : read_all text 1 (2 ∷ 0 ∷ 9 ∷ []) ≡ codes "096" ++ 10 ∷ []
unfolding mmap_min_addr_read
two_reads = refl

-- A process whose mapping ends at 4096.
abbrev vm : Transfer
vm address len = if ltb address 4096 then ret len else fail efault

run-position_example :
    (run vm vm (read 10 ∷ pwrite 4 0 ∷ readv (1 ∷ 2 ∷ []) ∷ []) 100).0
    ≡ 100 + (run vm vm (read 10 ∷ pwrite 4 0 ∷ readv (1 ∷ 2 ∷ []) ∷ []) 100).1
run-position_example = run-position vm vm (read 10 ∷ pwrite 4 0 ∷ readv (1 ∷ 2 ∷ []) ∷ []) 100
