-- ===== src/Scans/Examples.antt =====
-- Two searches queued, one of them given up.
use raggio.Prelude.{
  ℕ, ◌+◌, ◌*◌, ◌<◌, ◌≡◌, ◌≢◌, refl, false, Option, none, some, List, [], length, arith,
}
use raggio.Scans.{
  Scan, Drain, pending, failed, resolved, cancelled, batched, scoped, scoped_limit, run,
  scan_batched, scan_scoped, cancel_caller,
}
use raggio.Scans.Steps.{Reach, here, next, arrives, gives_up}
use raggio.Scans.Batched.{drain_scans_settles}
use raggio.Scans.Scoped.{drain_scoped_settles}

abbrev idle : Scan ℕ ℕ ℕ
idle = record {
  queue = [];
  group = [];
  in_thread = false;
  running = false;
  futures = λ i. pending;
  next_fut = 0;
}

-- A search that returns the depth asked for.
abbrev search : List ℕ → List ℕ → Option ℕ → List ℕ
search qs ns p = ns

abbrev once : Option ℕ → ℕ → Option ℕ
once e n = e

abbrev batch_drain : Drain ℕ ℕ ℕ
batch_drain = batched (some 8) search

abbrev scoped_drain : Drain ℕ ℕ ℕ
scoped_drain = scoped 1 (λ q n. n) (λ qs ns. ns)

abbrev two_scans : Scan ℕ ℕ ℕ
unfolding scan_batched cancel_caller
two_scans = cancel_caller 0 (scan_batched 7 20 none (scan_batched 5 10 (some 3) idle))

abbrev two_scoped : Scan ℕ ℕ ℕ
unfolding scan_scoped cancel_caller
two_scoped = cancel_caller 0 (scan_scoped 7 20 none (scan_scoped 5 10 none idle))

second_answered : (run batch_drain 8 (once none) two_scans).futures 1 ≡ resolved 20
unfolding run batched two_scans
second_answered = refl

first_given_up : (run batch_drain 8 (once none) two_scans).futures 0 ≡ cancelled
unfolding run batched two_scans
first_given_up = refl

second_failed : (run scoped_drain 8 (once (some 9)) two_scoped).futures 1 ≡ failed 9
unfolding run scoped two_scoped
second_failed = refl

small_groups : scoped_limit 2000 3072 ≡ 1
unfolding scoped_limit
small_groups = refl

batched_reached : Reach batch_drain two_scans
unfolding batched two_scans
batched_reached =
    next
      (next (next (here (refl, refl, refl, refl, refl)) (arrives 5 10 (some 3)))
        (arrives 7 20 none))
      (gives_up 0)

scoped_reached : Reach scoped_drain two_scoped
unfolding scoped two_scoped
scoped_reached =
    next (next (next (here (refl, refl, refl, refl, refl)) (arrives 5 10 none)) (arrives 7 20 none))
      (gives_up 0)

drain_scans_settles_example :
    ((run batch_drain (2 * length two_scans.queue + 4) (once none) two_scans).running ≡ false)
    × ((i : ℕ)
        → i < two_scans.next_fut
        → (run batch_drain (2 * length two_scans.queue + 4) (once none) two_scans).futures i
          ≢ pending)
drain_scans_settles_example =
    drain_scans_settles (some 8) search (λ qs ns p. refl) batched_reached (once none)

drain_scoped_settles_example :
    ((run scoped_drain (2 * length two_scoped.queue + 4) (once (some 9)) two_scoped).running
      ≡ false)
    × ((i : ℕ)
        → i < two_scoped.next_fut
        → (run scoped_drain (2 * length two_scoped.queue + 4) (once (some 9)) two_scoped).futures i
          ≢ pending)
drain_scoped_settles_example =
    drain_scoped_settles 1 (λ q n. n) (λ qs ns. ns) (omega arith) (λ qs ns. refl) scoped_reached
      (once (some 9))
