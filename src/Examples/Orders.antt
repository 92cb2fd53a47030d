-- ===== src/Examples/Orders.antt =====
-- Examples for the timestamps and the wait-for graph.
use distributed_file_system.Prelude.{◌≡◌, refl, arith, true, [], ◌∷◌, some, codes}
use distributed_file_system.Prelude.Crc.{checksum_ieee}
use distributed_file_system.Common.Types.{NodeId}
use distributed_file_system.Prelude.Map.{lookup, insert}
use distributed_file_system.Common.WaitFor.{Graph, has_cycle, successors}
use distributed_file_system.Common.WaitFor.Correct.{Verdict, has_cycle-Verdict}

-- The check value of CRC-32.
crc_check : checksum_ieee (codes "123456789") ≡ 3421780262
unfolding checksum_ieee
crc_check = refl

abbrev deadlock : Graph
deadlock = (1, (2, true) ∷ []) ∷ (2, (1, true) ∷ []) ∷ []

deadlock_reported : has_cycle deadlock ≡ some (true, 1 ∷ 2 ∷ 1 ∷ [])
unfolding has_cycle lookup insert
deadlock_reported = refl

has_cycle-Verdict_example : Verdict deadlock (has_cycle deadlock)
has_cycle-Verdict_example = has_cycle-Verdict deadlock

abbrev turned : Graph
turned = (2, (1, true) ∷ []) ∷ (1, (2, true) ∷ []) ∷ []

same_successors : (v : NodeId) → successors deadlock v ≡ successors turned v
unfolding successors lookup
same_successors v = ground arith
