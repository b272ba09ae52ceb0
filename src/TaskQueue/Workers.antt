-- ===== src/TaskQueue/Workers.antt =====
-- The dispatcher and the workers of server.cpp over one task queue, as interleaved steps: `push`
-- unlocks before it broadcasts, and a worker that finds nothing waits on `task_cond`.
use monitor_system.Base.{
  ℕ, zero, suc, ◌≡◌, ◌≢◌, refl, List, [], ◌∷◌, Bool, true, false, ◌⊎◌, inl, inr, none, some, arith,
  set, get_elem?, All, pos, negsuc, ok,
}
use monitor_system.Message.{Msg}
use monitor_system.TaskQueue.{TaskQueue, push, pop, is_empty}
use monitor_system.TaskQueue.Bounds.{IsValid, push-IsValid, pop-IsValid}

-- A worker between two calls of `pop`, about to test the queue, or in `pthread_cond_wait`.
pub data Worker : Type 0 where
  working : Worker
  ready : Worker
  waiting : Worker

pub record System : Type 0 where
  pub queue : TaskQueue
  pub workers : List Worker
  -- The dispatcher stands between the unlock of `push` and its broadcast.
  pub broadcasting : Bool

unfoldable pub wake : Worker → Worker
wake waiting = ready
wake working = working
wake ready = ready

unfoldable pub wake_all : List Worker → List Worker
wake_all [] = []
wake_all (w ∷ ws) = wake w ∷ wake_all ws

-- One step of one thread.
pub data Step (s : System) : System → Type 0 where
  -- The dispatcher's `push`, up to the unlock.
  insert :
      (msg : Msg) (tq : TaskQueue)
      → s.broadcasting ≡ false
      → push s.queue msg ≡ ok (pos 1, tq)
      → Step s (record s { queue = tq; broadcasting = true })
  -- A `push` that finds the queue full.
  refuse :
      (msg : Msg) (tq : TaskQueue)
      → s.broadcasting ≡ false
      → push s.queue msg ≡ ok (negsuc 0, tq)
      → Step s (record s { queue = tq })
  broadcast :
      s.broadcasting ≡ true
      → Step s (record s { workers = wake_all s.workers; broadcasting = false })
  -- A worker comes back for more.
  call :
      (w : ℕ)
      → get_elem? s.workers w ≡ some working
      → Step s (record s { workers = set s.workers w ready })
  -- A worker that holds the lock takes a message,
  take :
      (w i : ℕ) (tq : TaskQueue)
      → get_elem? s.workers w ≡ some ready
      → pop s.queue ≡ some (i, tq)
      → Step s (record s { queue = tq; workers = set s.workers w working })
  -- or waits.
  sleep :
      (w : ℕ)
      → get_elem? s.workers w ≡ some ready
      → pop s.queue ≡ none
      → Step s (record s { workers = set s.workers w waiting })
  -- The system may wake a waiting thread for no reason.
  spurious :
      (w : ℕ)
      → get_elem? s.workers w ≡ some waiting
      → Step s (record s { workers = set s.workers w ready })

pub data Reach (s : System) : System → Type 0 where
  at_start : Reach s s
  after : {t u : System} → Reach s t → Step t u → Reach s u

abbrev pub IsAwake : Worker → Type 0
IsAwake w = w ≢ waiting

-- No worker waits while there is a message, unless the broadcast is still to come.
abbrev pub IsLive : System → Type 0
IsLive s = (is_empty s.queue ≡ true) ⊎ (s.broadcasting ≡ true) ⊎ All IsAwake s.workers

pub record Inv (s : System) : Type 0 where
  pub valid : IsValid s.queue
  pub live : IsLive s

wake_all-IsAwake : (ws : List Worker) → All IsAwake (wake_all ws)
unfolding wake_all wake
wake_all-IsAwake [] = tt
wake_all-IsAwake (working ∷ ws) = (λ e. cc, wake_all-IsAwake ws)
wake_all-IsAwake (ready ∷ ws) = (λ e. cc, wake_all-IsAwake ws)
wake_all-IsAwake (waiting ∷ ws) = (λ e. cc, wake_all-IsAwake ws)

set-IsAwake :
    (ws : List Worker) (i : ℕ) (w : Worker) → IsAwake w → All IsAwake ws → All IsAwake (set ws i w)
set-IsAwake [] i w h a = tt
set-IsAwake (x ∷ ws) zero w h a = (h, a.1)
set-IsAwake (x ∷ ws) (suc i) w h a = (a.0, set-IsAwake ws i w h a.1)

push-refused : (tp tq : TaskQueue) (msg : Msg) → push tp msg ≡ ok (negsuc 0, tq) → tq ≡ tp
unfolding push
push-refused tp tq msg e = ground arith

is_empty-pop : (tp : TaskQueue) → pop tp ≡ none → is_empty tp ≡ true
unfolding pop
is_empty-pop tp e = ground arith

is_empty-pop-some : (tp tq : TaskQueue) (i : ℕ) → pop tp ≡ some (i, tq) → is_empty tp ≡ false
unfolding pop
is_empty-pop-some tp tq i e = ground arith

-- A change of the workers that puts none of them to sleep.
keep-IsLive :
    (s : System) (i : ℕ) (w : Worker)
    → IsAwake w
    → IsLive s
    → IsLive (record s { workers = set s.workers i w })
keep-IsLive s i w h (inl e) = inl e
keep-IsLive s i w h (inr (inl b)) = inr (inl b)
keep-IsLive s i w h (inr (inr a)) = inr (inr (set-IsAwake s.workers i w h a))

take-IsLive :
    (s : System) (tq : TaskQueue) (i : ℕ)
    → is_empty s.queue ≡ false
    → IsLive s
    → IsLive (record s { queue = tq; workers = set s.workers i working })
take-IsLive s tq i h (inl e) = cc
take-IsLive s tq i h (inr (inl b)) = inr (inl b)
take-IsLive s tq i h (inr (inr a)) = inr (inr (set-IsAwake s.workers i working (λ e. cc) a))

Step-Inv : {s t : System} → Step s t → Inv s → Inv t
Step-Inv {s} (insert msg tq idle e) v = record {
  valid = push-IsValid s.queue msg v.valid e;
  live = inr (inl refl);
}
Step-Inv {s} (refuse msg tq idle e) v = record {
  valid = push-IsValid s.queue msg v.valid e;
  live = rw (push-refused s.queue tq msg e) v.live;
}
Step-Inv {s} (broadcast b) v = record {
  valid = v.valid;
  live = inr (inr (wake_all-IsAwake s.workers));
}
Step-Inv {s} (call w e) v = record {
  valid = v.valid;
  live = keep-IsLive s w ready (λ e. cc) v.live;
}
Step-Inv {s} (take w i tq e p) v = record {
  valid = pop-IsValid s.queue v.valid p;
  live = take-IsLive s tq w (is_empty-pop-some s.queue tq i p) v.live;
}
Step-Inv {s} (sleep w e p) v = record { valid = v.valid; live = inl (is_empty-pop s.queue p) }
Step-Inv {s} (spurious w e) v = record {
  valid = v.valid;
  live = keep-IsLive s w ready (λ e. cc) v.live;
}

pub Reach-Inv : {s t : System} → Inv s → Reach s t → Inv t
Reach-Inv v at_start = v
Reach-Inv v (after r st) = Step-Inv st (Reach-Inv v r)

-- In every state that the threads can reach, whatever the order of their steps, the queue is valid,
-- and no worker is left waiting beside a message once the broadcast is through.
pub no_lost_wakeup :
    (s t : System)
    → IsValid s.queue
    → All IsAwake s.workers
    → Reach s t
    → t.broadcasting ≡ false
    → is_empty t.queue ≡ false
    → IsValid t.queue × All IsAwake t.workers
no_lost_wakeup s t v a r quiet some_left = (inv.valid, awake inv.live)
  where
    inv : Inv t
    inv = Reach-Inv (record { valid = v; live = inr (inr a) }) r

    awake : IsLive t → All IsAwake t.workers
    awake (inl e) = cc
    awake (inr (inl b)) = cc
    awake (inr (inr all)) = all
