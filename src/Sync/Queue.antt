-- ===== src/Sync/Queue.antt =====
-- scaleway/sync.go: processNextActionItem and runSyncQueue, over the work queue of client-go.
pub mod Laws
use scaleway_cloud_controlle.Base.{
  ℕ, zero, suc, ltb, String, Bool, true, false, Option, none, some, Result, ok, err, if◌then◌else◌,
}
use scaleway_cloud_controlle.Kube.{Node}
use scaleway_cloud_controlle.Scaleway.Api.{History}
use scaleway_cloud_controlle.Sync.Controller.{SyncController, handle_action}

abbrev pub exponential_max_retries : ℕ
exponential_max_retries = 30

-- workqueue.RateLimitingInterface: `Q` is the state of a queue of keys. `get` is none once the
-- queue is shut down and empty.
pub record WorkQueue (Q : Type 0) : Type 0 where
  pub get : Q → Option (String × Q)
  pub add : String → Q → Q
  pub add_rate_limited : String → Q → Q
  pub forget : String → Q → Q
  pub mark_done : String → Q → Q
  pub num_requeues : String → Q → ℕ
  pub shut_down : Q → Q

-- What processNextActionItem does to the queue behind the action.
pub data QueueCall : Type 0 where
  retry give_up : QueueCall

unfoldable pub after_action : Result (Unit {0}) → ℕ → QueueCall
after_action (ok _) num_requeues = give_up
after_action (err _) num_requeues =
    if ltb num_requeues exponential_max_retries then retry else give_up

module _ {Q : Type 0} (w : WorkQueue Q) where
  open w use {get, add, add_rate_limited, forget, mark_done, num_requeues}

  -- AddFunc of the node informer.
  unfoldable pub on_node_added : Node → Q → Q
  on_node_added node q = add node.name q

  unfoldable pub carry_out : QueueCall → String → Q → Q
  carry_out retry key q = add_rate_limited key q
  carry_out give_up key q = forget key q

  module _ (s : SyncController) where
    -- The queue's part of the state, and that of the services that are called.
    abbrev pub State : Type 0
    State = Q × History

    -- The deferred call of Done is the last one.
    unfoldable pub process_key : String → State → State
    process_key key (q, h) =
        let (result, called) = handle_action s key h in
        (mark_done key (carry_out (after_action result (num_requeues key q)) key q), called)

    unfoldable pub process_item : Option (String × Q) → State → Bool × State
    process_item none state = (false, state)
    process_item (some (key, q)) (_, h) = (true, process_key key (q, h))

    unfoldable pub process_next_action_item : State → Bool × State
    process_next_action_item state = process_item (get state.0) state

    -- Some rounds of the loop of runSyncQueue, which ends when the queue is shut down.
    unfoldable pub run_sync_queue : ℕ → State → State
    run_sync_queue zero state = state
    run_sync_queue (suc rounds) state =
        let (goes_on, next) = process_next_action_item state in
        let rest = run_sync_queue rounds next in if goes_on then rest else next
