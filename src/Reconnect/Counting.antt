-- ===== src/Reconnect/Counting.antt =====
-- How many failures it takes until the client reconnects.
use monitor_system.Base.{ℕ, zero, suc, ◌+◌, ◌-◌, ◌*◌, ◌≤◌, ◌≡◌, ◌∙◌, arith, leb}
use monitor_system.Reconnect.{try_to_relogin, relogin_num}

-- The counter after a number of failures in a row.
after_failures : ℕ → ℕ → ℕ
after_failures zero check = check
after_failures (suc n) check = after_failures n (try_to_relogin check).0

after_failures_lem : (n check : ℕ) → after_failures n check ≡ check - n
unfolding after_failures try_to_relogin
after_failures_lem zero check = omega arith
after_failures_lem (suc n) check = after_failures_lem n (try_to_relogin check).0 ∙ ground arith

-- With the counter at `check`, the first `check` failures only count down, and every later one
-- signals the relogin thread: started at 3, the fourth failure is the first that does.
signal_after : (check n : ℕ) → (try_to_relogin (after_failures n check)).1 ≡ leb check n
unfolding try_to_relogin
signal_after check n = ground (arith, after_failures_lem n check)

-- The sending thread and the relogin thread, with counts of what they did. The relogin thread may
-- pass its `while` whenever the counter is 0 and it gets the lock.
pub record Counts : Type 0 where
  pub check_for_relogin : ℕ
  pub failures : ℕ
  pub relogins : ℕ

pub data Step (s : Counts) : Counts → Type 0 where
  fails : Step s (record s {
    check_for_relogin = (try_to_relogin s.check_for_relogin).0;
    failures = s.failures + 1;
  })
  relogs :
      s.check_for_relogin ≡ 0
      → Step s (record s { check_for_relogin = relogin_num; relogins = s.relogins + 1 })

-- A run of both threads, as a list of steps.
pub data Run : Counts → Counts → Type 0 where
  done : (s : Counts) → Run s s
  does : {s t u : Counts} → Step s t → Run t u → Run s u

abbrev Enough : Counts → Type 0
Enough s =
    (3 * s.relogins + 3 ≤ s.failures + s.check_for_relogin) × (s.check_for_relogin ≤ relogin_num)

Step-Enough : {s t : Counts} → Step s t → Enough s → Enough t
unfolding try_to_relogin
Step-Enough fails h = ground arith
Step-Enough (relogs e) h = omega arith

Run-Enough : {s t : Counts} → Run s t → Enough s → Enough t
Run-Enough (done s) h = h
Run-Enough (does st r) h = Run-Enough r (Step-Enough st h)

-- From the start of the client on, in every order of the two threads' steps, there were three failed
-- sends at least for each reconnection, and the counter never exceeds 3.
pub three_failures_each :
    (s t : Counts)
    → s.check_for_relogin ≡ relogin_num
    → s.relogins ≡ 0
    → Run s t
    → (3 * t.relogins ≤ t.failures) × (t.check_for_relogin ≤ relogin_num)
three_failures_each s t start none_yet r =
    let enough = Run-Enough r (omega arith) in (omega arith, enough.1)
