-- ===== src/Sync/Run.antt =====
-- scaleway/sync.go, Run: the informer of the nodes, the wait for the caches, and the loops, each as
-- the events that it makes. The events of different goroutines come in any order.
pub mod Laws
use scaleway_cloud_controlle.Base.{
  String, Bool, true, false, not, ◌&&◌, Option, List, [], ◌∷◌, Result, if◌then◌else◌,
}
use scaleway_cloud_controlle.Kube.{Service, Node}
use scaleway_cloud_controlle.Scaleway.Api.{History}
use scaleway_cloud_controlle.Sync.Controller.{SyncController, sync_node_tags, sync_service}
use scaleway_cloud_controlle.Sync.Queue.{WorkQueue, on_node_added, process_next_action_item}

-- How far Run is: it waits for a cache, has started the loops, returns behind `<-stopCh`, or has
-- returned since a cache was not ready.
pub data Stage : Type 0 where
  waiting_for_nodes waiting_for_services running stopping timed_out : Stage

pub data Event : Type 0 where
  -- The informer has a new node.
  node_added : Node → Event
  -- What WaitForCacheSync returns.
  nodes_synced services_synced : Bool → Event
  stop : Event
  -- A round of runSyncQueue, with the cache of the nodes at that time.
  next_item : (String → Result (Option Node)) → Event
  -- A round of SyncNodesTags, and one of SyncLBTags.
  node_round : Node → Event
  service_round : Service → Event

-- The goroutines of the loops run, or end a last round.
unfoldable pub has_loops : Stage → Bool
has_loops running = true
has_loops stopping = true
has_loops _ = false

unfoldable pub is_round : Event → Bool
is_round (next_item cache) = true
is_round (node_round node) = true
is_round (service_round service) = true
is_round _ = false

unfoldable pub next_stage : Event → Stage → Stage
next_stage (nodes_synced ok) waiting_for_nodes = if ok then waiting_for_services else timed_out
next_stage (services_synced ok) waiting_for_services = if ok then running else timed_out
next_stage stop running = stopping
next_stage _ stage = stage

-- The deferred call of ShutDown, where Run returns.
unfoldable pub shuts_down : Event → Stage → Bool
shuts_down (nodes_synced ok) waiting_for_nodes = not ok
shuts_down (services_synced ok) waiting_for_services = not ok
shuts_down stop running = true
shuts_down _ _ = false

pub record Running (Q : Type 0) : Type 0 where
  pub stage : Stage
  pub state : Q × History

module _ {Q : Type 0} (w : WorkQueue Q) (s : SyncController) where
  unfoldable pub act : Event → Q × History → Q × History
  act (node_added node) (q, h) = (on_node_added w node q, h)
  act (next_item cache) state = (process_next_action_item w (record s { get_node = cache }) state).1
  act (node_round node) (q, h) = (q, (sync_node_tags s node h).1)
  act (service_round service) (q, h) = (q, (sync_service s service h).1)
  act _ state = state

  unfoldable pub when_shut_down : Bool → Q × History → Q × History
  when_shut_down true (q, h) = (w.shut_down q, h)
  when_shut_down false state = state

  -- There are no rounds while the loops are not started.
  unfoldable pub step : Event → Running Q → Running Q
  step event r = if is_round event && not (has_loops r.stage) then r else record {
    stage = next_stage event r.stage;
    state = when_shut_down (shuts_down event r.stage) (act event r.state);
  }

  unfoldable pub run : List Event → Running Q → Running Q
  run [] r = r
  run (event ∷ events) r = run events (step event r)

  unfoldable pub start : Q → History → Running Q
  start q h = record { stage = waiting_for_nodes; state = (q, h) }
