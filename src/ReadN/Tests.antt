-- ===== src/ReadN/Tests.antt =====
-- The loops of common/readn.c on concrete courses.
use my_common.Common.{◌≡◌, refl, List, [], ◌∷◌, length, arith}
use my_common.ReadN.{
  ReadResult, bytes, read_interrupted, WriteResult, accepted, write_interrupted, transferred,
  transfer_error, sys_readn, sys_writen,
}
use my_common.ReadN.Whole.{content, transfer-content}

abbrev three_reads : List ReadResult
three_reads = bytes (1 ∷ 2 ∷ []) ∷ read_interrupted ∷ bytes (3 ∷ []) ∷ []

abbrev three_writes : List WriteResult
three_writes = accepted 1 ∷ write_interrupted ∷ accepted 2 ∷ []

-- The end of the file gives what there was, and a write that takes nothing is an error.
short_read : sys_readn 5 (bytes (1 ∷ 2 ∷ []) ∷ bytes [] ∷ []) ≡ transferred 2 (1 ∷ 2 ∷ [])
unfolding sys_readn
short_read = refl

no_progress : sys_writen (7 ∷ 8 ∷ []) (accepted 1 ∷ accepted 0 ∷ []) ≡ transfer_error
unfolding sys_writen
no_progress = refl

transfer-content_example :
    (sys_readn (length (content three_reads)) three_reads ≡ transferred 3 (1 ∷ 2 ∷ 3 ∷ []))
    × (sys_writen (7 ∷ 8 ∷ 9 ∷ []) three_writes ≡ transferred 3 (7 ∷ 8 ∷ 9 ∷ []))
transfer-content_example =
    transfer-content three_reads (7 ∷ 8 ∷ 9 ∷ []) three_writes (omega arith, (omega arith, tt))
      (omega arith, (omega arith, tt)) refl
