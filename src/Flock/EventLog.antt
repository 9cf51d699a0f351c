-- ===== src/Flock/EventLog.antt =====
-- murmur/flock/eventlog.py: the events of a run, and what a later run restores from them.
use murmur_ai_harness.Prelude.{ℕ, String, Bool, List, [], ◌∷◌, Dict, insert}
use murmur_ai_harness.Flock.Artifact.{Artifact}
use murmur_ai_harness.Flock.Gateway.{Fault}

-- `FlockEvent`, one constructor for each kind; `meta` is what the scheduler writes there.
pub data FlockEvent : Type 0 where
  run_started : (goal : String) → FlockEvent
  node_finished : (node_id op : String) → List Artifact → (calls : ℕ) → FlockEvent
  node_failed : (node_id op : String) (calls : ℕ) (error : Fault) → FlockEvent
  run_finished : (all_ok : Bool) → FlockEvent

pub record CompletedNode : Type 0 where
  pub op : String
  pub output : List Artifact
  pub calls : ℕ

-- The loop of `completed_nodes` on one event.
unfoldable pub complete_with : FlockEvent → Dict CompletedNode → Dict CompletedNode
complete_with (run_started g) d = d
complete_with (node_finished id op output calls) d =
    insert id (record { op = op; output = output; calls = calls }) d
complete_with (node_failed id op calls e) d = d
complete_with (run_finished b) d = d

unfoldable pub complete_all : Dict CompletedNode → List FlockEvent → Dict CompletedNode
unfolding complete_with
complete_all d [] = d
complete_all d (e ∷ es) = complete_all (complete_with e d) es

unfoldable pub completed_nodes : List FlockEvent → Dict CompletedNode
unfolding complete_all
completed_nodes events = complete_all [] events
