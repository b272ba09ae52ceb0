-- ===== src/Pipeline/Batch.antt =====
-- Lines that go all the way: through the client's sending thread, the connection, the server's
-- dispatcher and task queue, and the workers.
use mathlib.Core.Path.{subst}
use monitor_system.Base.{
  ℕ, ◌+◌, ◌-◌, ◌<◌, ◌≡◌, refl, sym, ap, ◌∙◌, true, false, List, [], ◌∷◌, ◌++◌, append-nil,
  append_assoc, map, some, arith, All, Pairwise, length-Pairwise, length, length-append, ltb, ◌==◌,
  ok, ◌>>=◌, IsText, c_str, c_str-IsText,
}
use monitor_system.Message.{Msg, is_data}
use monitor_system.Json.{Cjson, IsLawful, build}
use monitor_system.TaskQueue.{TaskQueue}
use monitor_system.TaskQueue.Bounds.{IsValid}
use monitor_system.TaskQueue.Fifo.{put, Holds}
use monitor_system.Server.{Server}
use monitor_system.Server.Dispatch.{Event, dispatch_all}
use monitor_system.Server.Sessions.{dispatch-data}
use monitor_system.Storing.{sql_size, deal_with_monitor_msg}
use monitor_system.Storing.Query.{insert_row}
use monitor_system.Storing.Turns.{turns, deal_with_all, turns-Holds}
use monitor_system.Encode.{Kind, type_of, names, is_urgent}
use monitor_system.Encode.Object.{two_words, record_of}
use monitor_system.Encode.Deliver.{Sender, Calls}
use monitor_system.Encode.Effects.{send_rounds}
use monitor_system.Pipeline.{table}
use monitor_system.Pipeline.Lookups.{words-All}
use monitor_system.Pipeline.Stored.{IsLine, client_sends, server_stores}

-- A line: a day, an hour, and the words behind them.
pub record Line : Type 0 where
  pub kind : Kind
  pub day : List ℕ
  pub hour : List ℕ
  pub rest : List (List ℕ)

-- The statement that stores it.
abbrev pub row : Line → List ℕ
row l = insert_row (table l.kind) (two_words l.day l.hour ∷ l.rest)

-- The text that the client prints for it.
abbrev pub printed : Cjson → Line → List ℕ
printed json l = json.print (build json (record_of l.kind l.day l.hour l.rest))

-- What is asked of a line: it is not urgent, and its object and its statement fit their arrays.
pub record IsStorable (json : Cjson) (l : Line) : Type 0 where
  pub complete : length l.rest ≡ length (names l.kind)
  pub short_time : length (two_words l.day l.hour) < 30
  pub calm : is_urgent json l.kind (build json (record_of l.kind l.day l.hour l.rest)) ≡ ok false
  pub small : length (printed json l) < 500
  pub fits : length (row l) < sql_size

-- A round of the sending thread in which it receives a message with this line and can send.
pub record Sends (l : Line) (r : List ℕ × Calls) : Type 0 where
  pub message : Msg
  pub received : r.1.received ≡ some message
  pub sent : r.1.sent ≡ true
  pub array : length r.0 ≡ 500
  pub line : IsLine l.kind message l.day l.hour l.rest

-- A message on its way to the server.
pub record Conveys (json : Cjson) (l : Line) (msg : Msg) : Type 0 where
  pub type_set : msg.type ≡ type_of l.kind
  pub text : c_str msg.buff ≡ ok (printed json l)
  pub texts : All IsText (l.day ∷ l.hour ∷ l.rest)

-- The messages of one connection, as `epoll_wait` and `recv` hand them to the dispatcher.
abbrev pub arrivals : ℕ → List Msg → List Event
arrivals fd = map λ m. record { sockfd = fd; failed = false; msg = m }

pub is_data-type_of : (k : Kind) → is_data (type_of k) ≡ true
is_data-type_of Kind.mem = refl
is_data-type_of Kind.cpu = refl
is_data-type_of Kind.disk = refl
is_data-type_of Kind.sys = refl

-- Data messages for which the queue has room are all queued.
pub data_dispatched :
    (fd : ℕ) (ms q : List Msg) (sv : Server) (tp : TaskQueue)
    → IsValid tp
    → Holds tp q
    → All (λ m. is_data m.type ≡ true) ms
    → length q + length ms < tp.task_queue_size
    → (tq : TaskQueue) × (dispatch_all sv tp (arrivals fd ms) ≡ ok (sv, tq))
      × Holds tq (q ++ ms)
      × IsValid tq
unfolding dispatch_all put
data_dispatched fd [] q sv tp v h types room =
    (tp, refl, subst (Holds tp) (sym (append-nil q)) h, v)
data_dispatched fd (m ∷ ms) q sv tp v h (type, types) room =
    let e : Event = record { sockfd = fd; failed = false; msg = m } in
    let (one, taken, held, valid, size) = dispatch-data sv tp q e v h refl type in
    let below : (length q == tp.task_queue_size - 1) ≡ false = ground (arith, room) in
    let added : Holds one (q ++ (m ∷ [])) = rw below at held in
    let more_room : length (q ++ (m ∷ [])) + length ms < one.task_queue_size =
      omega (arith, length-append q (m ∷ []), room, size) in
    let (tq, run, kept, ends) =
      data_dispatched fd ms (q ++ (m ∷ [])) sv one valid added types more_room in
    (
      tq,
      ap (λ t. t >>= λ u. dispatch_all u.0 u.1 (arrivals fd ms)) taken ∙ run,
      subst (Holds tq) (append_assoc q (m ∷ []) ms) kept,
      ends,
    )

module _ (json : Cjson) (law : IsLawful json) where
  batch_sent :
      (ls : List Line) (rs : List (List ℕ × Calls)) (s : Sender)
      → All (IsStorable json) ls
      → Pairwise Sends ls rs
      → (out : List Msg) × (send_rounds json rs s ≡ ok (record s { tcp = s.tcp ++ out }))
        × Pairwise (Conveys json) ls out
  unfolding send_rounds
  batch_sent [] [] s h p = ([], ap (λ ms. ok (record s { tcp = ms })) (sym (append-nil s.tcp)), tt)
  batch_sent [] (r ∷ rs) s h p = absurd p
  batch_sent (l ∷ ls) [] s h p = absurd p
  batch_sent (l ∷ ls) ((old, calls) ∷ rs) s (good, h) (r, p) =
      let (msg, runs, type, text) =
        client_sends json law l.kind l.day l.hour l.rest r.message old calls s r.line r.received
          r.sent good.calm (omega (arith, good.small, r.array)) in
      let (out, more, carried) = batch_sent ls rs (record s { tcp = s.tcp ++ (msg ∷ []) }) h p in
      (
        msg ∷ out,
        ap (λ t. t >>= λ u. send_rounds json rs u) runs
            ∙ more
            ∙ ap (λ ms. ok (record s { tcp = ms })) (append_assoc s.tcp (msg ∷ []) out),
        (
          record {
            type_set = type;
            text = text;
            texts =
                subst (All IsText) r.line.split
                  (words-All r.line.text (c_str-IsText r.message.buff r.line.text r.line.read));
          },
          carried,
        ),
      )

  conveyed-data :
      (ls : List Line) (ms : List Msg)
      → Pairwise (Conveys json) ls ms
      → All (λ m. is_data m.type ≡ true) ms
  conveyed-data [] [] p = tt
  conveyed-data [] (m ∷ ms) p = absurd p
  conveyed-data (l ∷ ls) [] p = absurd p
  conveyed-data (l ∷ ls) (m ∷ ms) (c, p) =
      (ap is_data c.type_set ∙ is_data-type_of l.kind, conveyed-data ls ms p)

  dealt :
      (ls : List Line) (ms : List Msg)
      → All (IsStorable json) ls
      → Pairwise (Conveys json) ls ms
      → deal_with_all json ms ≡ ok (map (λ l. some (row l)) ls)
  dealt [] [] h p = refl
  dealt [] (m ∷ ms) h p = absurd p
  dealt (l ∷ ls) [] h p = absurd p
  dealt (l ∷ ls) (m ∷ ms) (good, h) (c, p) =
      let stored =
        server_stores json law l.kind l.day l.hour l.rest m c.texts good.complete c.type_set
          c.text in
      let fits : ltb (length (row l)) sql_size ≡ true = ground (arith, good.fits) in
      let first : deal_with_monitor_msg json m ≡ ok (some (row l)) = rw fits at stored in
      ap (λ r. r >>= λ sql. deal_with_all json ms >>= λ more. ok (sql ∷ more)) first
      ∙ ap (λ r. r >>= λ more. ok (some (row l) ∷ more)) (dealt ls ms h p)

  -- Storable lines that the sending thread receives, one in each round, all go to the server. If the
  -- task queue has room for them, the dispatcher queues them all and changes nothing else, and as many
  -- turns of the workers make their rows, in order, and empty the queue.
  pub lines_stored :
      (fd : ℕ) (ls : List Line) (rs : List (List ℕ × Calls)) (s : Sender) (sv : Server)
      (tp : TaskQueue)
      → All (IsStorable json) ls
      → Pairwise Sends ls rs
      → IsValid tp
      → Holds tp []
      → length ls < tp.task_queue_size
      → (out : List Msg) × (send_rounds json rs s ≡ ok (record s { tcp = s.tcp ++ out }))
        × (tq : TaskQueue) × (dispatch_all sv tp (arrivals fd out) ≡ ok (sv, tq))
        × (left : TaskQueue) × (turns json (length ls) tq
            ≡ some (ok (map (λ l. some (row l)) ls, left)))
        × Holds left []
  lines_stored fd ls rs s sv tp good sends v h room =
      let (out, sent, carried) = batch_sent ls rs s good sends in
      let (tq, queued, held, valid) =
        data_dispatched fd out [] sv tp v h (conveyed-data ls out carried)
          (omega (arith, room, length-Pairwise (Conveys json) ls out carried)) in
      let (left, run, empty, ends) = turns-Holds json out tq valid held in
      (
        out,
        sent,
        tq,
        queued,
        left,
        ap (λ n. turns json n tq) (length-Pairwise (Conveys json) ls out carried)
            ∙ run
            ∙ ap (λ r. some (r >>= λ xs. ok (xs, left))) (dealt ls out good carried),
        empty,
      )
