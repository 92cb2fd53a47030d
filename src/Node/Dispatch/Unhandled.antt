-- ===== src/Node/Dispatch/Unhandled.antt =====
-- The messages that `handleReplicateFile` of backend/dfs/node/node.go sends, at their receiver.
use distributed_file_system.Prelude.{List, []}
use distributed_file_system.Common.Messages.{Outgoing}
use distributed_file_system.Node.{Node}
use distributed_file_system.Node.Files.{Outcome, done, panic}

abbrev outs : Outcome (List Outgoing) → List Outgoing
outs (done out) = out
outs panic = []
