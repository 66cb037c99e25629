-- ===== src/Tests/Interleavings.antt =====
-- Two transactions, of which the second depends on the first.
use concurrent_server.Common.{ℕ, ◌≡◌, ◌≢◌, refl, true, false, some, none, arith}
use concurrent_server.Machine.{trans_pending, trans_committed}
use concurrent_server.Transaction.System.{
  Shared, Place, running, depending, counting, waiting, woken, alerting, replying, kept, finished,
  reply, update, observe, link, count_up, commit, pass, take, resume, alert, alert_none,
  fresh_transactions, Later, unmoved, moved, Reachable,
}
use concurrent_server.Transaction.System.Isolation.{committed_behind, committed_together}
use concurrent_server.Transaction.System.Defs.{has_committed, has_posted, has_withdrawn}
use concurrent_server.Transaction.System.Stranded.{never_committed}

-- Transaction 1 finds 0 pending, links to it and waits for it.
abbrev dependent_links : Shared
dependent_links = record fresh_transactions {
  depends = update (λ _. none) 0 (some 1);
  waitcnt = update (λ _. 0) 1 1;
}

abbrev dependent_waits : ℕ → Place
dependent_waits =
    update (update (update (update (λ _. running) 1 (depending 0)) 1 counting) 1 running) 1 waiting

links-Reachable : Reachable 2 dependent_links dependent_waits
links-Reachable =
    moved
      (moved
        (moved (moved unmoved 1 (omega arith) (observe {d = 0} (omega arith) refl)) 1 (omega arith)
          (link refl))
        1 (omega arith) count_up)
      1 (omega arith) commit

-- Both commit.
abbrev both_committed : Shared
both_committed = record {
  status = update (update (λ _. trans_pending) 0 trans_committed) 1 trans_committed;
  depends = update (λ _. none) 0 (some 1);
  waitcnt = update (update (λ _. 0) 1 1) 1 0;
  sem = update (update (λ _. 0) 1 1) 1 0;
}

abbrev both_ended : ℕ → Place
both_ended =
    update
      (update
        (update (update (update (update dependent_waits 0 waiting) 0 alerting) 0 (replying true)) 1
          woken)
        1 waiting)
      1 alerting

both-Reachable : Reachable 2 both_committed both_ended
both-Reachable =
    moved
      (moved
        (moved
          (moved (moved (moved links-Reachable 0 (omega arith) commit) 0 (omega arith) (pass refl))
            0 (omega arith) (alert refl))
          1 (omega arith) (take (omega arith) (omega arith)))
        1 (omega arith) (resume refl))
      1 (omega arith) (pass refl)

committed_behind_example :
    (has_committed (both_ended 0) ≡ true) × (has_posted (both_ended 0) ≡ true)
committed_behind_example = committed_behind 0 1 both-Reachable refl refl

kept-both : (t : ℕ) → has_withdrawn (both_ended t) ≡ false
kept-both t = ground arith

committed_together_example : both_committed.status 0 ≡ trans_committed
committed_together_example = committed_together 0 1 both-Reachable kept-both refl refl

-- Transaction 0 commits when 1 has found it pending and has not linked to it.
abbrev linked_late : Shared
linked_late = record fresh_transactions {
  status = update (λ _. trans_pending) 0 trans_committed;
  depends = update (λ _. none) 0 (some 1);
}

abbrev late : ℕ → Place
late =
    update
      (update
        (update (update (update (update (λ _. running) 1 (depending 0)) 0 waiting) 0 alerting) 0
          (replying false))
        0 (finished kept false))
      1 counting

late-Reachable : Reachable 2 linked_late late
late-Reachable =
    moved
      (moved
        (moved
          (moved
            (moved (moved unmoved 1 (omega arith) (observe {d = 0} (omega arith) refl)) 0
              (omega arith) commit)
            0 (omega arith) (pass refl))
          0 (omega arith) (alert_none refl))
        0 (omega arith) reply)
      1 (omega arith) (link refl)

-- It goes on to wait.
late_waits :
    Later 2 linked_late late
      (record linked_late { waitcnt = update (λ _. 0) 1 1 })
      (update (update late 1 running) 1 waiting)
late_waits = moved (moved unmoved 1 (omega arith) count_up) 1 (omega arith) commit

never_committed_example : linked_late.status 1 ≢ trans_committed
never_committed_example = never_committed 0 1 late-Reachable (refl, (kept, refl)) late_waits
