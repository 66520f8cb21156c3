-- ===== src/Tests/Queue.antt =====
-- Examples of the queue of nodes.
use scaleway_cloud_controlle.Base.{
  Bool, true, false, ok, ◌⊎◌, ℕ, suc, String, Option, none, some, List, [], ◌∷◌, ◌++◌, err, errorf,
  Error, ◌≡◌, refl, arith, if◌then◌else◌, ◌==◌,
}
use scaleway_cloud_controlle.Scaleway.Api.{History, ◌>>=◌}
use scaleway_cloud_controlle.Sync.Controller.{SyncController, handle_action}
use scaleway_cloud_controlle.Sync.Queue.{WorkQueue, run_sync_queue}
use scaleway_cloud_controlle.Sync.Queue.Laws.{
  IsWorkQueue, IsBounded, IsRetried, IsGivenUp, run_sync_queue-gives_up,
}
use scaleway_cloud_controlle.Sync.Run.{
  Event, node_added, nodes_synced, services_synced, node_round, service_round, next_item, stop, run,
  start,
}
use scaleway_cloud_controlle.Sync.Run.Laws.{AreSync, caches_ready, run-IsSafe}
use scaleway_cloud_controlle.Tests.{some_node}
use scaleway_cloud_controlle.Tests.Sync.{some_sync, labelled_node, labelled_service}

-- The keys in the order in which they are handed out, the numbers of the limiter, and whether the
-- queue is shut down.
record Keys : Type 0 where
  keys : List String
  count : String → ℕ
  is_closed : Bool

unfoldable first_key : List String → Keys → Option (String × Keys)
first_key [] q = none
first_key (key ∷ keys) q = some (key, record q { keys = keys })

unfoldable offer : Bool → String → List String → List String
offer true key keys = keys
offer false key keys = keys ++ key ∷ []

abbrev plain_queue : WorkQueue Keys
plain_queue = record {
  get = λ q. first_key q.keys q;
  add = λ key q. record q { keys = offer q.is_closed key q.keys };
  add_rate_limited = λ key q. record q {
    keys = offer q.is_closed key q.keys;
    count = λ j. if key == j then suc (q.count j) else q.count j;
  };
  forget = λ key q. record q { count = λ j. if key == j then 0 else q.count j };
  mark_done = λ key q. q;
  num_requeues = λ key q. q.count key;
  shut_down = λ q. record q { is_closed = true };
}

first_key-keys :
    (q : Keys) (key : String) (keys : List String)
    → q.keys ≡ key ∷ keys
    → first_key q.keys q ≡ some (key, record q { keys = keys })
unfolding first_key
first_key-keys q key keys e = rw e refl

first_key-count :
    (all : List String) (q rest : Keys) (key j : String)
    → first_key all q ≡ some (key, rest)
    → rest.count j ≡ q.count j
unfolding first_key
first_key-count [] q rest key j e = ground arith
first_key-count (k ∷ keys) q rest key j e = ground arith

offer-open :
    (key : String) (q : Keys)
    → q.keys ≡ []
    → q.is_closed ≡ false
    → offer q.is_closed key q.keys ≡ key ∷ []
unfolding offer
offer-open key q e o = rw (e, o) refl

offer-closed :
    (key : String) (q : Keys) → q.is_closed ≡ true → offer q.is_closed key q.keys ≡ q.keys
unfolding offer
offer-closed key q e = rw e refl

abbrev plain_queue_laws : IsWorkQueue plain_queue
plain_queue_laws = record {
  pending = λ q. q.keys;
  closed = λ q. q.is_closed;
  get_pending = λ q key keys e. (record q { keys = keys }, first_key-keys q key keys e, refl, refl);
  get_requeues = λ q rest key j. first_key-count q.keys q rest key j;
  done_pending = λ key q e. refl;
  done_closed = λ key q. refl;
  done_requeues = λ key j q. refl;
  add_pending = λ key q. offer-open key q;
  add_ignored = λ key q e. (offer-closed key q e, offer-closed key q e);
  add_closed = λ key q. refl;
  add_requeues = λ key j q. refl;
  plain_add_requeues = λ key j q. refl;
  shut_down_closed = λ q. refl;
  shut_down_requeues = λ j q. refl;
  forget_pending = λ key q. refl;
  forget_closed = λ key q. refl;
  forget_requeues = λ key j q. refl;
}

abbrev no_cache : SyncController
no_cache = record some_sync { get_node = λ name. err (errorf "no cache") }

no_cache-fails : (h : History) → (e : Error) × ((handle_action no_cache "n1" h).0 ≡ err e)
unfolding handle_action ◌>>=◌
no_cache-fails h = (errorf "no cache", refl)

abbrev one_key : Keys
one_key = record { keys = "n1" ∷ []; count = λ key. 0; is_closed = false }

run_sync_queue-gives_up_example :
    IsRetried plain_queue plain_queue_laws no_cache "n1" no_cache-fails 7
      (run_sync_queue plain_queue no_cache 7 (one_key, [])).0
    × IsGivenUp plain_queue plain_queue_laws no_cache "n1" no_cache-fails
        (run_sync_queue plain_queue no_cache 31 (one_key, [])).0
run_sync_queue-gives_up_example =
    run_sync_queue-gives_up plain_queue plain_queue_laws no_cache "n1" no_cache-fails one_key []
      (refl, refl, refl) 7 (omega arith)

-- Both caches are ready, a node is new, and is synchronised three times; then the process stops.
abbrev some_events : List Event
some_events =
    node_added some_node
    ∷ nodes_synced true
    ∷ node_round labelled_node
    ∷ services_synced true
    ∷ next_item (λ name. ok (some labelled_node))
    ∷ node_round labelled_node
    ∷ stop
    ∷ service_round labelled_service
    ∷ []

run-IsSafe_example :
    let r = run plain_queue some_sync some_events (start plain_queue some_sync one_key []) in
    IsBounded plain_queue plain_queue_laws some_sync r.state.0
    × AreSync plain_queue plain_queue_laws some_sync [] r.state.1
    × ((caches_ready some_events ≡ true) ⊎ (r.state.1 ≡ []))
run-IsSafe_example =
    run-IsSafe plain_queue plain_queue_laws some_sync some_events one_key [] (λ key. omega arith)
