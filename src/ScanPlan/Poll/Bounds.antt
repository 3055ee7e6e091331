-- ===== src/ScanPlan/Poll/Bounds.antt =====
-- `UCAPI::PlanTableScan` of src/uc_api.cpp ends, within its budget, and cleans up after a throw.
use unity_catalog.Base.{
  ℕ, zero, suc, ◌+◌, ◌-◌, ◌*◌, ◌≤◌, ◌<◌, ◌≡◌, refl, ap, subst, Option, none, some, List, [], false,
  Text, String, length, arith, ltb, leb, leb-false, ltb→lt, ltb-false, min, Bool-cases, inl, inr, ℤ,
  str_eq,
}
use Prim.Native.String.{◌++◌ as ◌<>◌}
use unity_catalog.Json.{Yyjson}
use unity_catalog.Result.{Result, ok, err, Result-cases}
use unity_catalog.Http.{
  Http, Net, Request, Response, make_request_resp, request, pause, interrupted,
}
use unity_catalog.Http.Effects.{
  Slept, Asked, deletes, make_request-Asked, interrupted-quiet, pause-sleeps,
}
use unity_catalog.ScanPlan.{ScanPlanResult, is_submitted}
use unity_catalog.ScanPlan.Parse.{parse_scan_plan_response}
use unity_catalog.ScanPlan.Poll.{
  PlanTarget, table_url, PollState, sleep_of, chunk, sleep_chunks, LoopEnd, after_fetch,
  after_sleep, poll_round, poll_loop, read_plan, fetch_planning_result, cancel_plan, close, closed,
  start, planned, plan_table_scan, poll_budget_ms, poll_fuel,
}

sleep_of_bounds : (s : PollState) → (100 ≤ sleep_of s) × (sleep_of s ≤ 60000)
unfolding sleep_of
sleep_of_bounds s = (ground arith, ground arith)

module _ (json : Yyjson) (lower : String → String) (http : Http) (t : PlanTarget) where
  chunk_total :
      (rest : Net http → Option (Result (Unit {0}) × Net http)) (ms left : ℕ) (n : Net http)
      (p : Result (Unit {0}) × Net http)
      → (p.1.slept ≡ n.slept) × (p.1.sent ≡ n.sent)
      → ((m : Net http)
          → (r : Result (Unit {0}) × Net http) × (rest m ≡ some r) × Slept http left m r)
      → (r : Result (Unit {0}) × Net http) × (chunk json lower http t rest ms p ≡ some r)
        × Slept http (ms + left) n r
  unfolding chunk
  chunk_total rest ms left n (err e, n') q k = ((err e, n'), refl, (omega arith, q.1))
  chunk_total rest ms left n (ok u, n') q k = add (k (pause http ms n'))
    where
      more :
          (r : Result (Unit {0}) × Net http)
          → Slept http left (pause http ms n') r
          → Slept http (ms + left) n r
      more (ok v, m) s =
          (omega (arith, pause-sleeps http ms n'), ground (arith, pause-sleeps http ms n'))
      more (err e, m) s =
          (omega (arith, pause-sleeps http ms n'), ground (arith, pause-sleeps http ms n'))

      add :
          (r : Result (Unit {0}) × Net http) × (rest (pause http ms n') ≡ some r)
            × Slept http left (pause http ms n') r
          → (r : Result (Unit {0}) × Net http) × (rest (pause http ms n') ≡ some r)
            × Slept http (ms + left) n r
      add (r, e, s) = (r, e, more r s)

  sleep_chunks_total :
      (fuel slept ms left : ℕ) (n : Net http)
      → ms ≤ slept + fuel
      → left ≡ ms - slept
      → (r : Result (Unit {0}) × Net http) × (sleep_chunks json lower http t fuel slept ms n
          ≡ some r)
        × Slept http left n r
  unfolding sleep_chunks
  sleep_chunks_total zero slept ms left n h e = ((ok tt, n), ground arith, (omega arith, refl))
  sleep_chunks_total (suc fuel) slept ms left n h e = elim (Bool-cases (ltb slept ms)) [
    | inr done ↦
        ((ok tt, n), rw (done, sleep_chunks) refl, (omega (arith, ltb-false slept ms done), refl))
    | inl going ↦
        let split : left ≡ min 100 (ms - slept) + (ms - (slept + 100)) =
          omega (arith, ltb→lt slept ms going) in
        rw (going, split, sleep_chunks)
          (chunk_total _ (min 100 (ms - slept)) (ms - (slept + 100)) n (interrupted http n)
            (interrupted-quiet http n)
            λ m.
              sleep_chunks_total fuel (slept + 100) ms (ms - (slept + 100)) m
                (omega (arith, ltb→lt slept ms going)) refl)
  ]

  read_plan-net : (p : Result Response × Net http) → (read_plan json lower http t p).1 ≡ p.1
  unfolding read_plan
  read_plan-net (err e, n) = refl
  read_plan-net (ok resp, n) = elim (Result-cases (parse_scan_plan_response json lower resp.body)) [
    | inl (e, h) ↦ rw (h, read_plan) refl
    | inr (r, h) ↦ rw (h, read_plan) refl
  ]

  fetch-Asked :
      (plan_id : String) (n : Net http)
      → Asked http n (fetch_planning_result json lower http t plan_id n).1
  unfolding fetch_planning_result
  fetch-Asked plan_id n =
      rw
        (read_plan-net
          (make_request_resp http (table_url t <> "/plan/" <> plan_id) t.token [] none n))
        (make_request-Asked http (table_url t <> "/plan/" <> plan_id) t.token [] none n)

  -- From a log `n`, an end of the loop after at most `ms` more of sleep and `k` more requests.
  abbrev NotSubmitted : Result ScanPlanResult → Type 0
  NotSubmitted (ok r) = is_submitted r.status ≡ false
  NotSubmitted (err e) = Unit

  -- A plan that came back needed no cancelling; a throw cancels at most one plan.
  abbrev pub Settled : Result ScanPlanResult → List Request → List Request → Type 0
  Settled (ok r) before after = (is_submitted r.status ≡ false) × (deletes after ≡ deletes before)
  Settled (err e) before after = deletes after ≤ deletes before + 1

  abbrev EndsWithin : ℕ → ℕ → Net http → LoopEnd json lower http t → Type 0
  EndsWithin ms k n e =
      NotSubmitted e.outcome
      × (e.net.slept ≤ n.slept + ms)
      × (deletes e.net.sent ≡ deletes n.sent)
      × (length e.net.sent ≤ length n.sent + k)

  abbrev Ends : ℕ → ℕ → Net http → Option (LoopEnd json lower http t) → Type 0
  Ends ms k n o = (e : LoopEnd json lower http t) × (o ≡ some e) × EndsWithin ms k n e

  widen :
      (ms k ms' k' : ℕ) (n n' : Net http) (o : Option (LoopEnd json lower http t))
      → n'.slept + ms' ≤ n.slept + ms
      → deletes n'.sent ≡ deletes n.sent
      → length n'.sent + k' ≤ length n.sent + k
      → Ends ms' k' n' o
      → Ends ms k n o
  widen ms k ms' k' n n' o a b c (e, h, (p, q, r, s)) =
      (e, h, (p, omega arith, omega arith, omega arith))

  -- What is left of the budget for sleeping, with one last sleep that may pass it.
  abbrev left_ms : PollState → ℕ
  left_ms s = poll_budget_ms + 60000 - s.elapsed_ms

  after_fetch_total :
      (s : PollState) (ms left k : ℕ)
      (rest : PollState → Net http → Option (LoopEnd json lower http t))
      (p : Result (ScanPlanResult × ℤ) × Net http)
      → ((s' : PollState) (m : Net http)
          → s'.elapsed_ms ≡ s.elapsed_ms + ms
          → Ends left k m (rest s' m))
      → Ends left k p.1 (after_fetch json lower http t s ms rest p)
  unfolding after_fetch
  after_fetch_total s ms left k rest (err e, n) h = (_, refl, (tt, omega arith, refl, omega arith))
  after_fetch_total s ms left k rest (ok (r, z), n) h = h _ n refl

  after_sleep_total :
      (s : PollState) (ms left k : ℕ) (n : Net http)
      (rest : PollState → Net http → Option (LoopEnd json lower http t))
      (p : Result (Unit {0}) × Net http)
      → Slept http ms n p
      → ((s' : PollState) (m : Net http)
          → s'.elapsed_ms ≡ s.elapsed_ms + ms
          → Ends left k m (rest s' m))
      → Ends (ms + left) (suc k) n (after_sleep json lower http t s ms rest (some p))
  unfolding after_sleep
  after_sleep_total s ms left k n rest (err e, m) q h =
      (_, refl, (tt, omega (arith, q.0), ap deletes q.1, omega (arith, ap length q.1)))
  after_sleep_total s ms left k n rest (ok u, m) q h =
      let (a, b, c) = fetch-Asked s.result.plan_id m in
      widen (ms + left) (suc k) left k n
        (fetch_planning_result json lower http t s.result.plan_id m).1 _ (omega (arith, a, q.0))
        (omega (arith, b, ap deletes q.1)) (omega (arith, c, ap length q.1))
        (after_fetch_total s ms left k rest
          (fetch_planning_result json lower http t s.result.plan_id m) h)

  poll_round_total :
      (s : PollState) (k : ℕ) (n : Net http)
      (rest : PollState → Net http → Option (LoopEnd json lower http t))
      → ((s' : PollState) (m : Net http)
          → s.elapsed_ms < poll_budget_ms
          → s'.elapsed_ms ≡ s.elapsed_ms + sleep_of s
          → Ends (left_ms s') k m (rest s' m))
      → Ends (left_ms s) (suc k) n (poll_round json lower http t s rest n)
  unfolding poll_round
  poll_round_total s k n rest h = elim (Bool-cases (leb poll_budget_ms s.elapsed_ms)) [
    | inl spent ↦ rw (spent, poll_round) (_, refl, (tt, omega arith, refl, omega arith))
    | inr more ↦
        let ms = sleep_of s in
        let bounds = sleep_of_bounds s in
        let room = leb-false poll_budget_ms s.elapsed_ms more in
        let (r, e, quiet) = sleep_chunks_total ms 0 ms ms n (omega arith) (omega arith) in
        let after = poll_budget_ms + 60000 - (s.elapsed_ms + ms) in
        rw (more, poll_round)
          (rw e (
            widen (left_ms s) (suc k) (ms + after) (suc k) n n _ (omega (arith, bounds.1, room))
              refl (omega arith)
              (after_sleep_total s ms after k n rest r quiet λ s' m at.
                subst (λ x. Ends (poll_budget_ms + 60000 - x) k m (rest s' m)) at
                  (h s' m room at))))
  ]

  poll_loop_total :
      (fuel : ℕ) (s : PollState) (n : Net http)
      → 1 ≤ fuel
      → poll_budget_ms + 100 ≤ s.elapsed_ms + fuel * 100
      → Ends (left_ms s) fuel n (poll_loop json lower http t fuel s n)
  unfolding poll_loop
  poll_loop_total zero s n h g = absurd (omega arith)
  poll_loop_total (suc fuel) s n h g = elim (Bool-cases (is_submitted s.result.status)) [
    | inr done ↦ rw (done, poll_loop) (_, refl, (done, omega arith, refl, omega arith))
    | inl going ↦
        rw (going, poll_loop)
          (poll_round_total s fuel n (poll_loop json lower http t fuel) λ s' m room at.
            let bounds = sleep_of_bounds s in poll_loop_total fuel s' m (omega arith) (omega arith))
  ]

  -- What the caller of `plan_table_scan` sees, from a log `n`.
  abbrev pub Planned : Net http → Result ScanPlanResult × Net http → Type 0
  Planned n (r, n') =
      Settled r n.sent n'.sent
      × (n'.slept ≤ n.slept + 360000)
      × (length n'.sent ≤ length n.sent + 3003)

  cancel-length :
      (plan_id : String) (n : Net http)
      → ((cancel_plan json lower http t plan_id n).slept ≡ n.slept)
        × (deletes (cancel_plan json lower http t plan_id n).sent ≤ deletes n.sent + 1)
        × (length (cancel_plan json lower http t plan_id n).sent ≤ length n.sent + 1)
  unfolding cancel_plan request
  cancel-length plan_id n = elim (Bool-cases (str_eq plan_id "")) [
    | inl e ↦ rw (e, cancel_plan) (refl, omega arith, omega arith)
    | inr e ↦ rw (e, cancel_plan) (refl, omega arith, omega arith)
  ]

  close-Planned :
      (ms : ℕ) (n0 n : Net http) (e : LoopEnd json lower http t)
      → Asked http n0 n
      → ms ≤ 360000
      → EndsWithin ms 3001 n e
      → Planned n0 (close json lower http t e)
  unfolding close
  close-Planned ms n0 n e a b c = elim (Result-cases e.outcome) [
    | inl (x, h) ↦
        let (p, q, r) = cancel-length e.plan_id e.net in
        rw (h, close) (omega (arith, a, c, q), omega (arith, a, c, p, b), omega (arith, a, c, r))
    | inr (x, h) ↦
        rw (h, close)
          ((rw h at c.0, omega (arith, a, c)), omega (arith, a, b, c), omega (arith, a, c))
  ]

  planned-Planned :
      (n0 : Net http) (p : Result (ScanPlanResult × ℤ) × Net http)
      → Asked http n0 p.1
      → (r : Result ScanPlanResult × Net http) × (planned json lower http t p ≡ some r)
        × Planned n0 r
  unfolding planned closed start
  planned-Planned n0 (err e, n) a =
      (_, refl, (omega (arith, a), omega (arith, a), omega (arith, a)))
  planned-Planned n0 (ok (r, z), n) a =
      let (e, h, w) = poll_loop_total poll_fuel (start r z) n (omega arith) (omega arith) in
      (close json lower http t e, rw h refl, close-Planned 360000 n0 n e a (omega arith) w)

  -- Asking for a plan always ends within the loop's fuel, after at most 360 seconds of sleep and
  -- 3,003 requests: with a plan that is no longer merely submitted and with nothing cancelled, or
  -- with an exception and at most one request that cancels the plan.
  pub plan_table_scan-Planned :
      (filter_json : Text) (n : Net http)
      → (r : Result ScanPlanResult × Net http) × (plan_table_scan json lower http t filter_json n
          ≡ some r)
        × Planned n r
  unfolding plan_table_scan
  plan_table_scan-Planned filter_json n = planned-Planned n (read_plan json lower http t _) (
      rw (read_plan-net (make_request_resp http (table_url t <> "/plan") t.token _ none n))
        (make_request-Asked http (table_url t <> "/plan") t.token _ none n))
