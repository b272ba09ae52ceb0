-- ===== src/Storing/Turns.antt =====
-- The turns of the workers, one after the other: whichever worker takes a turn, it works on the one
-- task queue.
use monitor_system.Base.{
  ℕ, zero, suc, ◌≡◌, refl, ap, ◌∙◌, List, [], ◌∷◌, Option, none, some, length, Exec, ok, stop,
  ◌>>=◌,
}
use monitor_system.Message.{Msg}
use monitor_system.Json.{Cjson}
use monitor_system.TaskQueue.{TaskQueue}
use monitor_system.TaskQueue.Bounds.{IsValid}
use monitor_system.TaskQueue.Fifo.{Holds}
use monitor_system.Storing.{deal_with_monitor_msg}
use monitor_system.Storing.Worker.{do_task, worker_stores_oldest}

-- The statements of a number of turns, in order, and the queue.
abbrev pub Results : Type 0
Results = Exec (List (Option (List ℕ)) × TaskQueue)

-- A turn that stops ends the server.
abbrev pub with_result : Exec (Option (List ℕ)) → Option Results → Option Results
with_result (stop c) more = some (stop c)
with_result (ok sql) none = none
with_result (ok sql) (some rs) = some (rs >>= λ r. ok (sql ∷ r.0, r.1))

abbrev pub next_turn :
    Option (Exec (Option (List ℕ)) × TaskQueue) → (TaskQueue → Option Results) → Option Results
next_turn none more = none
next_turn (some (r, rest)) more = with_result r (more rest)

-- `n` turns, or `none` if one of them has to wait.
unfoldable pub turns : Cjson → ℕ → TaskQueue → Option Results
turns json zero tq = some (ok ([], tq))
turns json (suc n) tq = next_turn (do_task json tq) (turns json n)

-- What messages lead to, one after the other.
abbrev pub deal_with_all : Cjson → List Msg → Exec (List (Option (List ℕ)))
deal_with_all json [] = ok []
deal_with_all json (msg ∷ q) =
    deal_with_monitor_msg json msg >>= λ sql. deal_with_all json q >>= λ more. ok (sql ∷ more)

with_result-bind :
    (r : Exec (Option (List ℕ))) (rs : Exec (List (Option (List ℕ)))) (tq : TaskQueue)
    → with_result r (some (rs >>= λ xs. ok (xs, tq)))
      ≡ some ((r >>= λ sql. rs >>= λ more. ok (sql ∷ more)) >>= λ xs. ok (xs, tq))
with_result-bind (stop c) rs tq = refl
with_result-bind (ok sql) (stop c) tq = refl
with_result-bind (ok sql) (ok xs) tq = refl

-- As many turns as there are messages deal with each of them, the oldest first, and empty the queue.
pub turns-Holds :
    (json : Cjson) (q : List Msg) (tq : TaskQueue)
    → IsValid tq
    → Holds tq q
    → (rest : TaskQueue) × (turns json (length q) tq
        ≡ some (deal_with_all json q >>= λ xs. ok (xs, rest)))
      × Holds rest []
      × IsValid rest
unfolding turns
turns-Holds json [] tq v h = (tq, refl, h, v)
turns-Holds json (msg ∷ q) tq v h =
    let (one, dealt, held, valid) = worker_stores_oldest json tq (msg ∷ q) v h in
    let (rest, more, empty, ends) = turns-Holds json q one valid held in
    (
      rest,
      ap (λ r. next_turn r (turns json (length q))) dealt
          ∙ ap (with_result (deal_with_monitor_msg json msg)) more
          ∙ with_result-bind (deal_with_monitor_msg json msg) (deal_with_all json q) rest,
      empty,
      ends,
    )
