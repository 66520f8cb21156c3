-- ===== src/Sync/Run/Laws.antt =====
-- What holds however the goroutines of a synchronisation are interleaved.
use scaleway_cloud_controlle.Base.{
  String, Bool, true, false, not, ◌&&◌, Option, none, some, List, [], ◌∷◌, ◌++◌, Result, ◌≡◌, refl,
  ap, ◌∙◌, sym, arith, All, All-append, Bool-cases, Option-cases, inl, inr, ◌⊎◌,
}
use mathlib.Core.List.{append_assoc}
use scaleway_cloud_controlle.Kube.{Service, Node}
use scaleway_cloud_controlle.Scaleway.Api.{Call, History, M}
use scaleway_cloud_controlle.Scaleway.Api.Trace.{Calls, Calls-mono, Calls-lift, Calls-none}
use scaleway_cloud_controlle.Sync.Controller.{
  SyncController, handle_found, handle_action, sync_node_tags,
}
use scaleway_cloud_controlle.Sync.Controller.Laws.{
  IsNodeSync, IsServiceSync, sync_node_tags-IsNodeSync, sync_service-IsServiceSync,
}
use scaleway_cloud_controlle.Sync.Queue.{
  WorkQueue, on_node_added, process_key, process_item, process_next_action_item,
}
use scaleway_cloud_controlle.Sync.Queue.Laws.{
  IsWorkQueue, IsBounded, process_next_action_item-IsBounded,
}
use scaleway_cloud_controlle.Sync.Run.{
  Stage, Event, node_added, nodes_synced, services_synced, stop, next_item, node_round,
  service_round, has_loops, is_round, next_stage, waiting_for_nodes, waiting_for_services,
  timed_out, shuts_down, Running, act, when_shut_down, step, run, start,
}

-- The first wait for the services' cache returns true.
unfoldable pub services_ready : List Event → Bool
services_ready [] = false
services_ready (services_synced ok ∷ events) = ok
services_ready (_ ∷ events) = services_ready events

-- The first wait for the nodes' cache returns true, and behind it the first one for the services'.
unfoldable pub caches_ready : List Event → Bool
caches_ready [] = false
caches_ready (nodes_synced ok ∷ events) = ok && services_ready events
caches_ready (_ ∷ events) = caches_ready events

pass : {A : Type 0} {h i j : History} → A ⊎ (i ≡ j) → j ≡ h → A ⊎ (i ≡ h)
pass (inl a) e = inl a
pass (inr d) e = inr (d ∙ e)

-- An event that is no end of the wait for a cache does not end it.
services_ready-cons :
    (event : Event) (events : List Event)
    → ((ok : Bool) × (event ≡ services_synced ok))
      ⊎ ((next_stage event waiting_for_services ≡ waiting_for_services)
          × (services_ready (event ∷ events) ≡ services_ready events))
unfolding next_stage services_ready
services_ready-cons (services_synced ok) events = inl (ok, refl)
services_ready-cons (nodes_synced ok) events = inr (refl, refl)
services_ready-cons (node_added node) events = inr (refl, refl)
services_ready-cons stop events = inr (refl, refl)
services_ready-cons (next_item cache) events = inr (refl, refl)
services_ready-cons (node_round node) events = inr (refl, refl)
services_ready-cons (service_round service) events = inr (refl, refl)

caches_ready-cons :
    (event : Event) (events : List Event)
    → ((ok : Bool) × (event ≡ nodes_synced ok))
      ⊎ ((next_stage event waiting_for_nodes ≡ waiting_for_nodes)
          × (caches_ready (event ∷ events) ≡ caches_ready events))
unfolding next_stage caches_ready
caches_ready-cons (nodes_synced ok) events = inl (ok, refl)
caches_ready-cons (services_synced ok) events = inr (refl, refl)
caches_ready-cons (node_added node) events = inr (refl, refl)
caches_ready-cons stop events = inr (refl, refl)
caches_ready-cons (next_item cache) events = inr (refl, refl)
caches_ready-cons (node_round node) events = inr (refl, refl)
caches_ready-cons (service_round service) events = inr (refl, refl)

module _ {Q : Type 0} (w : WorkQueue Q) (l : IsWorkQueue w) (s : SyncController) where
  -- A call for some node, or for some service.
  abbrev pub IsSync : Call → Type 0
  IsSync call =
      ((node : Node) × IsNodeSync s node call)
      ⊎ ((service : Service) × IsServiceSync s service call)

  -- The calls since a history are of that kind.
  abbrev pub AreSync : History → History → Type 0
  AreSync h later = (calls : List Call) × (later ≡ calls ++ h) × All IsSync calls

  AreSync-trans : (h i j : History) → AreSync h i → AreSync i j → AreSync h j
  AreSync-trans h i j (xs, e, p) (ys, d, q) =
      (ys ++ xs, d ∙ ap (λ k. ys ++ k) e ∙ sym (append_assoc ys xs h), All-append IsSync ys xs q p)

  Calls-AreSync : {A : Type 0} {m : M A} (h : History) → Calls IsSync m → AreSync h (m h).1
  Calls-AreSync h c = c.added h

  node_tags-IsSync : (node : Node) → Calls IsSync (sync_node_tags s node)
  node_tags-IsSync node = Calls-mono (λ call p. inl (node, p)) (sync_node_tags-IsNodeSync s node)

  module _ (cache : String → Result (Option Node)) where
    abbrev cached : SyncController
    cached = record s { get_node = cache }

    handle_found-IsSync : (found : Option Node) → Calls IsSync (handle_found cached found)
    unfolding handle_found
    handle_found-IsSync none = Calls-none
    handle_found-IsSync (some node) =
        Calls-mono (λ call p. inl (node, p)) (sync_node_tags-IsNodeSync cached node)

    handle_action-IsSync : (name : String) → Calls IsSync (handle_action cached name)
    unfolding handle_action
    handle_action-IsSync name = Calls-lift _ _ (λ found _. handle_found-IsSync found)

    next_item-AreSync :
        (q : Q) (h : History) → AreSync h (process_next_action_item w cached (q, h)).1.1
    unfolding process_next_action_item process_item process_key
    next_item-AreSync q h = elim (Option-cases (w.get q)) [
      | inl closed ↦ rw closed ([], refl, tt)
      | inr ((key, rest), got) ↦ rw got (Calls-AreSync h (handle_action-IsSync key))
    ]

  -- Every round is kept within its calls, and leaves no key with too many retries.
  act-AreSync : (event : Event) (q : Q) (h : History) → AreSync h (act w s event (q, h)).1
  unfolding act
  act-AreSync (node_added node) q h = ([], refl, tt)
  act-AreSync (nodes_synced b) q h = ([], refl, tt)
  act-AreSync (services_synced b) q h = ([], refl, tt)
  act-AreSync stop q h = ([], refl, tt)
  act-AreSync (next_item cache) q h = next_item-AreSync cache q h
  act-AreSync (node_round node) q h = Calls-AreSync h (node_tags-IsSync node)
  act-AreSync (service_round service) q h =
      Calls-AreSync h
        (Calls-mono (λ call p. inr (service, p)) (sync_service-IsServiceSync s service))

  abbrev Bounded : Q → Type 0
  Bounded = IsBounded w l s

  act-IsBounded :
      (event : Event) (q : Q) (h : History) → Bounded q → Bounded (act w s event (q, h)).0
  unfolding act on_node_added
  act-IsBounded (node_added node) q h b = λ j. rw (l.plain_add_requeues node.name j q) (b j)
  act-IsBounded (nodes_synced _) q h b = b
  act-IsBounded (services_synced _) q h b = b
  act-IsBounded stop q h b = b
  act-IsBounded (next_item cache) q h b =
      process_next_action_item-IsBounded w l (cached cache) q h b
  act-IsBounded (node_round node) q h b = b
  act-IsBounded (service_round service) q h b = b

  act-idle :
      (event : Event) (q : Q) (h : History) → is_round event ≡ false → (act w s event (q, h)).1 ≡ h
  unfolding act is_round
  act-idle (node_added node) q h e = refl
  act-idle (nodes_synced _) q h e = refl
  act-idle (services_synced _) q h e = refl
  act-idle stop q h e = refl
  act-idle (next_item cache) q h e = cc
  act-idle (node_round node) q h e = cc
  act-idle (service_round service) q h e = cc

  shut_down-IsBounded :
      (shut : Bool) (state : Q × History)
      → Bounded state.0
      → Bounded (when_shut_down w s shut state).0
  unfolding when_shut_down
  shut_down-IsBounded true (q, h) b = λ j. rw (l.shut_down_requeues j q) (b j)
  shut_down-IsBounded false state b = b

  shut_down-history :
      (shut : Bool) (state : Q × History) → (when_shut_down w s shut state).1 ≡ state.1
  unfolding when_shut_down
  shut_down-history true state = refl
  shut_down-history false state = refl

  -- What holds of a synchronisation that began with a history.
  record IsKept (began : History) (r : Running Q) : Type 0 where
    bounded : Bounded r.state.0
    calls_made : AreSync began r.state.1

  step-IsKept :
      (began : History) (event : Event) (r : Running Q)
      → IsKept began r
      → IsKept began (step w s event r)
  unfolding step
  step-IsKept began event r k = elim (Bool-cases (is_round event && not (has_loops r.stage))) [
    | inl idle ↦ rw idle k
    | inr goes_on ↦
        let shut = shuts_down event r.stage in
        let acted = act w s event r.state in
        let kept = shut_down-history shut acted in
        rw goes_on (record {
          bounded =
              shut_down-IsBounded shut acted (act-IsBounded event r.state.0 r.state.1 k.bounded);
          calls_made = rw kept (
              AreSync-trans began r.state.1 acted.1 k.calls_made
                (act-AreSync event r.state.0 r.state.1));
        })
  ]

  run-IsKept :
      (began : History) (events : List Event) (r : Running Q)
      → IsKept began r
      → IsKept began (run w s events r)
  unfolding run
  run-IsKept began [] r k = k
  run-IsKept began (event ∷ events) r k =
      run-IsKept began events (step w s event r) (step-IsKept began event r k)

  -- There is no call while the loops are not started.
  step-idle :
      (event : Event) (r : Running Q)
      → has_loops r.stage ≡ false
      → (step w s event r).state.1 ≡ r.state.1
  unfolding step
  step-idle event r waits = elim (Bool-cases (is_round event)) [
    | inl round ↦ rw (round, waits) refl
    | inr other ↦ rw other (
        shut_down-history (shuts_down event r.stage) (act w s event r.state)
        ∙ act-idle event r.state.0 r.state.1 other)
  ]

  next_stage-round :
      (event : Event) (stage : Stage) → is_round event ≡ true → next_stage event stage ≡ stage
  unfolding next_stage is_round
  next_stage-round event stage e = ground arith

  step-stage : (event : Event) (r : Running Q) → (step w s event r).stage ≡ next_stage event r.stage
  unfolding step
  step-stage event r = elim (Bool-cases (is_round event && not (has_loops r.stage))) [
    | inl idle ↦ rw idle (sym (next_stage-round event r.stage (ground arith)))
    | inr goes_on ↦ rw goes_on refl
  ]

  -- A step in a stage without the loops: the stage that it leads to, and the history, which stays.
  step-waits :
      (event : Event) (r : Running Q) (stage : Stage)
      → has_loops stage ≡ false
      → r.stage ≡ stage
      → ((step w s event r).stage ≡ next_stage event stage)
        × ((step w s event r).state.1 ≡ r.state.1)
  step-waits event r stage waits at = (
    step-stage event r ∙ ap (λ j. next_stage event j) at,
    step-idle event r (ap (λ j. has_loops j) at ∙ waits),
  )

  run-timed_out :
      (events : List Event) (r : Running Q)
      → r.stage ≡ timed_out
      → (run w s events r).state.1 ≡ r.state.1
  unfolding run has_loops next_stage
  run-timed_out [] r at = refl
  run-timed_out (event ∷ events) r at =
      let (there, same) = step-waits event r timed_out refl at in
      run-timed_out events (step w s event r) (there ∙ ground arith) ∙ same

  -- The history is the one at the start unless the first wait for the services' cache is successful.
  run-services :
      (events : List Event) (r : Running Q)
      → r.stage ≡ waiting_for_services
      → (services_ready events ≡ true) ⊎ ((run w s events r).state.1 ≡ r.state.1)
  unfolding run services_ready has_loops next_stage
  run-services [] r at = inr refl
  run-services (event ∷ events) r at =
      let (there, same) = step-waits event r waiting_for_services refl at in
      elim (services_ready-cons event events) [
        | inl (true, is_true) ↦ inl (rw is_true refl)
        | inl (false, is_false) ↦
            inr (run-timed_out events (step w s event r) (there ∙ rw is_false refl) ∙ same)
        | inr (waits, later) ↦
            rw later (pass (run-services events (step w s event r) (there ∙ waits)) same)
      ]

  run-nodes :
      (events : List Event) (r : Running Q)
      → r.stage ≡ waiting_for_nodes
      → (caches_ready events ≡ true) ⊎ ((run w s events r).state.1 ≡ r.state.1)
  unfolding run caches_ready has_loops next_stage
  run-nodes [] r at = inr refl
  run-nodes (event ∷ events) r at =
      let (there, same) = step-waits event r waiting_for_nodes refl at in
      elim (caches_ready-cons event events) [
        | inl (true, is_true) ↦
            let later : caches_ready (event ∷ events) ≡ services_ready events = rw is_true refl in
            rw later (pass (run-services events (step w s event r) (there ∙ rw is_true refl)) same)
        | inl (false, is_false) ↦
            inr (run-timed_out events (step w s event r) (there ∙ rw is_false refl) ∙ same)
        | inr (waits, later) ↦
            rw later (pass (run-nodes events (step w s event r) (there ∙ waits)) same)
      ]

  -- Whatever the goroutines do, in any order, from a queue on where no key was tried again more
  -- often than 30 times in a row: that stays so, the calls are those that a synchronisation of a
  -- node or of a service may make, and there is none unless the wait for the nodes' cache has
  -- returned true, and then that for the services' cache.
  pub run-IsSafe :
      (events : List Event) (q : Q) (h : History)
      → Bounded q
      → let r = run w s events (start w s q h) in
        Bounded r.state.0 × AreSync h r.state.1 × ((caches_ready events ≡ true) ⊎ (r.state.1 ≡ h))
  unfolding start
  run-IsSafe events q h b =
      let r = start w s q h in
      let k = run-IsKept h events r (record { bounded = b; calls_made = ([], refl, tt) }) in
      (k.bounded, k.calls_made, run-nodes events r refl)
