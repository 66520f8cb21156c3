-- ===== src/Sync/Queue/Laws.antt =====
-- How often a node is tried again.
use scaleway_cloud_controlle.Base.{
  ℕ, zero, suc, ◌+◌, ◌≤◌, ◌<◌, String, Bool, true, false, some, List, [], ◌∷◌, Result, ok, err,
  Error, ◌≡◌, refl, ◌∙◌, arith, if◌then◌else◌, ◌==◌, eq_iff, inl, inr, Option-cases,
}
use native.Mathlib.Nat.{add-zero, add-suc, suc-add, zero-add}
use scaleway_cloud_controlle.Scaleway.Api.{History}
use scaleway_cloud_controlle.Sync.Controller.{SyncController, handle_action}
use scaleway_cloud_controlle.Sync.Queue.{
  WorkQueue, retry, give_up, exponential_max_retries, after_action, carry_out, process_key,
  process_item, process_next_action_item, run_sync_queue,
}

-- What client-go documents of its queue: the keys that are to be handed out, the number of times
-- that the limiter was asked for each, and whether it was shut down, behind which it ignores the
-- keys that are added.
pub record IsWorkQueue {Q : Type 0} (w : WorkQueue Q) : Type 0 where
  pub pending : Q → List String
  pub closed : Q → Bool
  pub get_pending :
      (q : Q) (key : String) (keys : List String)
      → pending q ≡ key ∷ keys
      → (rest : Q) × (w.get q ≡ some (key, rest)) × (pending rest ≡ keys) × (closed rest ≡ closed q)
  pub get_requeues :
      (q rest : Q) (key j : String)
      → w.get q ≡ some (key, rest)
      → w.num_requeues j rest ≡ w.num_requeues j q
  pub done_pending :
      (key : String) (q : Q) → closed q ≡ false → pending (w.mark_done key q) ≡ pending q
  pub done_closed : (key : String) (q : Q) → closed (w.mark_done key q) ≡ closed q
  pub done_requeues :
      (key j : String) (q : Q) → w.num_requeues j (w.mark_done key q) ≡ w.num_requeues j q
  pub add_pending :
      (key : String) (q : Q)
      → pending q ≡ []
      → closed q ≡ false
      → pending (w.add_rate_limited key q) ≡ key ∷ []
  pub add_ignored :
      (key : String) (q : Q)
      → closed q ≡ true
      → (pending (w.add_rate_limited key q) ≡ pending q) × (pending (w.add key q) ≡ pending q)
  pub add_closed : (key : String) (q : Q) → closed (w.add_rate_limited key q) ≡ closed q
  pub add_requeues :
      (key j : String) (q : Q)
      → w.num_requeues j (w.add_rate_limited key q)
        ≡ (if key == j then suc (w.num_requeues j q) else w.num_requeues j q)
  pub plain_add_requeues :
      (key j : String) (q : Q) → w.num_requeues j (w.add key q) ≡ w.num_requeues j q
  pub shut_down_closed : (q : Q) → closed (w.shut_down q) ≡ true
  pub shut_down_requeues :
      (j : String) (q : Q) → w.num_requeues j (w.shut_down q) ≡ w.num_requeues j q
  pub forget_pending : (key : String) (q : Q) → pending (w.forget key q) ≡ pending q
  pub forget_closed : (key : String) (q : Q) → closed (w.forget key q) ≡ closed q
  pub forget_requeues :
      (key j : String) (q : Q)
      → w.num_requeues j (w.forget key q) ≡ (if key == j then 0 else w.num_requeues j q)

module _ {Q : Type 0} (w : WorkQueue Q) (l : IsWorkQueue w) (s : SyncController) where
  -- No key was tried again more often than allowed.
  abbrev pub IsBounded : Q → Type 0
  IsBounded q = (key : String) → w.num_requeues key q ≤ exponential_max_retries

  carry_out-IsBounded :
      (result : Result (Unit {0})) (key : String) (q : Q)
      → IsBounded q
      → IsBounded (carry_out w (after_action result (w.num_requeues key q)) key q)
  unfolding carry_out after_action
  carry_out-IsBounded (ok done) key q h j = ground (arith, h j, l.forget_requeues key j q)
  carry_out-IsBounded (err e) key q h j =
      ground (arith, h j, h key, l.forget_requeues key j q, l.add_requeues key j q, eq_iff key j)

  pub process_next_action_item-IsBounded :
      (q : Q) (h : History) → IsBounded q → IsBounded (process_next_action_item w s (q, h)).1.0
  unfolding process_next_action_item process_item process_key
  process_next_action_item-IsBounded q h b = elim (Option-cases (w.get q)) [
    | inl closed ↦ rw closed b
    | inr ((key, rest), got) ↦ rw got (λ j.
        let same : IsBounded rest = λ i. rw (l.get_requeues q rest key i got) (b i) in
        rw
          (l.done_requeues key j (
            carry_out w (after_action (handle_action s key h).0 (w.num_requeues key rest)) key
              rest))
          (carry_out-IsBounded (handle_action s key h).0 key rest same j))
  ]

  module _ (key : String)
      (fails : (h : History) → (e : Error) × ((handle_action s key h).0 ≡ err e)) where
    -- The queue is not shut down, the key alone is in it, and was tried again some number of times.
    abbrev pub IsRetried : ℕ → Q → Type 0
    IsRetried n q = (l.pending q ≡ key ∷ []) × (w.num_requeues key q ≡ n) × (l.closed q ≡ false)

    abbrev pub IsGivenUp : Q → Type 0
    IsGivenUp q = (l.pending q ≡ []) × (w.num_requeues key q ≡ 0)

    after_action-retry :
        (n : ℕ) (h : History) → n < 30 → after_action (handle_action s key h).0 n ≡ retry
    unfolding after_action
    after_action-retry n h few = let (e, failed) = fails h in rw failed (ground arith)

    after_action-give_up : (h : History) → after_action (handle_action s key h).0 30 ≡ give_up
    unfolding after_action
    after_action-give_up h = let (e, failed) = fails h in rw failed refl

    process_key-IsRetried :
        (n : ℕ) (q : Q) (h : History)
        → l.pending q ≡ []
        → w.num_requeues key q ≡ n
        → l.closed q ≡ false
        → n < 30
        → IsRetried (suc n) (process_key w s key (q, h)).0
    unfolding process_key carry_out
    process_key-IsRetried n q h none_left tried open_yet few =
        rw (tried, after_action-retry n h few)
          (
            l.done_pending key (w.add_rate_limited key q) (l.add_closed key q ∙ open_yet)
                ∙ l.add_pending key q none_left open_yet,
            ground (
              arith,
              l.done_requeues key key (w.add_rate_limited key q),
              l.add_requeues key key q,
              eq_iff key key,
              tried,
            ),
            l.done_closed key (w.add_rate_limited key q) ∙ l.add_closed key q ∙ open_yet,
          )

    process_key-IsGivenUp :
        (q : Q) (h : History)
        → l.pending q ≡ []
        → w.num_requeues key q ≡ 30
        → l.closed q ≡ false
        → IsGivenUp (process_key w s key (q, h)).0
    unfolding process_key carry_out
    process_key-IsGivenUp q h none_left tried open_yet =
        rw (tried, after_action-give_up h)
          (
            l.done_pending key (w.forget key q) (l.forget_closed key q ∙ open_yet)
                ∙ l.forget_pending key q
                ∙ none_left,
            ground (
              arith,
              l.done_requeues key key (w.forget key q),
              l.forget_requeues key key q,
              eq_iff key key,
            ),
          )

    -- A round with the key alone in the queue goes on, and processes the key.
    round_lem :
        (n : ℕ) (q : Q) (h : History)
        → IsRetried n q
        → (rest : Q) × (l.pending rest ≡ [])
          × (w.num_requeues key rest ≡ n)
          × (l.closed rest ≡ false)
          × (process_next_action_item w s (q, h) ≡ (true, process_key w s key (rest, h)))
    unfolding process_next_action_item process_item
    round_lem n q h (alone, tried, open_yet) =
        let (rest, got, none_left, still) = l.get_pending q key [] alone in
        (rest, none_left, l.get_requeues q rest key key got ∙ tried, still ∙ open_yet, rw got refl)

    -- A key that fails stays in the queue while it is tried again.
    run_sync_queue-IsRetried :
        (rounds n : ℕ) (q : Q) (h : History)
        → IsRetried n q
        → n + rounds ≤ 30
        → IsRetried (n + rounds) (run_sync_queue w s rounds (q, h)).0
    unfolding run_sync_queue
    run_sync_queue-IsRetried zero n q h r b = rw add-zero r
    run_sync_queue-IsRetried (suc rounds) n q h r b =
        let (rest, none_left, tried, open_yet, step) = round_lem n q h r in
        let next = process_key w s key (rest, h) in
        rw (step, add-suc n rounds, ← suc-add n rounds)
          (run_sync_queue-IsRetried rounds (suc n) next.0 next.1
            (process_key-IsRetried n rest h none_left tried open_yet (omega arith)) (omega arith))

    run_sync_queue-IsGivenUp :
        (left n : ℕ) (q : Q) (h : History)
        → IsRetried n q
        → n + left ≡ 30
        → IsGivenUp (run_sync_queue w s (suc left) (q, h)).0
    unfolding run_sync_queue
    run_sync_queue-IsGivenUp zero n q h r b =
        let (rest, none_left, tried, open_yet, step) = round_lem n q h r in
        rw step (process_key-IsGivenUp rest h none_left (tried ∙ omega arith) open_yet)
    run_sync_queue-IsGivenUp (suc left) n q h r b =
        let (rest, none_left, tried, open_yet, step) = round_lem n q h r in
        let next = process_key w s key (rest, h) in
        rw step (
          run_sync_queue-IsGivenUp left (suc n) next.0 next.1
            (process_key-IsRetried n rest h none_left tried open_yet (omega arith)) (omega arith))

    -- A node whose synchronisation always fails, alone in a queue that is not shut down, is tried 31
    -- times: up to the 30th failure it is in the queue again, which is not shut down, and behind the
    -- next one the queue is empty, and has forgotten the failures.
    pub run_sync_queue-gives_up :
        (q : Q) (h : History)
        → IsRetried 0 q
        → (rounds : ℕ) → rounds ≤ 30
        → IsRetried rounds (run_sync_queue w s rounds (q, h)).0
          × IsGivenUp (run_sync_queue w s 31 (q, h)).0
    run_sync_queue-gives_up q h r rounds few =
        let kept = run_sync_queue-IsRetried rounds 0 q h r (omega arith) in
        (rw zero-add at kept, run_sync_queue-IsGivenUp 30 0 q h r refl)
