-- ===== src/Pipeline/ReconnectedTests.antt =====
-- A line of each of two kinds, which the client cannot send at first, and the login after them.
use monitor_system.Base.{
  ℕ, pos, ◌≡◌, refl, List, [], ◌∷◌, ◌++◌, none, some, codes, replicate, arith, ok, true, false, inl,
  inr,
}
use monitor_system.Message.{Msg, sys_mem, sys_cpu}
use monitor_system.Json.{build_from}
use monitor_system.Json.Plain.{plain, plain-IsLawful, plain-IsLaidOut}
use monitor_system.TaskQueue.{TaskQueue, queue_length}
use monitor_system.TaskQueue.Bounds.{IsValid}
use monitor_system.TaskQueue.Fifo.{Holds}
use monitor_system.Server.{Server}
use monitor_system.Server.Dispatch.{dispatch_all}
use monitor_system.Offline.{newline}
use monitor_system.Reconnect.{Answers, Link, Replayed, relogin_round}
use monitor_system.Storing.Turns.{turns}
use monitor_system.Encode.{Kind, kind_of, is_urgent}
use monitor_system.Encode.Words.{fields}
use monitor_system.Encode.Deliver.{Sender, Calls, file_of}
use monitor_system.Encode.Effects.{send_rounds}
use monitor_system.Pipeline.Batch.{Line, IsStorable, row, arrivals}
use monitor_system.Pipeline.Kept.{Loses, of_kind}
use monitor_system.Pipeline.Resent.{CanReplay}
use monitor_system.Pipeline.Messages.{resent_msgs}
use monitor_system.Pipeline.Reconnected.{LetsIn, empty_files, reconnection_stores_all}

-- The files of the kinds of the lines do not exist yet.
abbrev fresh : Sender
fresh = record {
  check_for_relogin = 3;
  signals = 0;
  files = record { mem = none; cpu = none; disk = some []; sys = some [] };
  tcp = [];
  udp = [];
}

abbrev line_msg : ℕ → List ℕ → Msg
line_msg type text = record { type = type; buff = text ++ (newline ∷ 0 ∷ []) }

abbrev unsent : ℕ → List ℕ → Calls
unsent type text = record {
  received = some (line_msg type text);
  sent = false;
  opened = true;
  written = true;
}

abbrev first_text : List ℕ
first_text = codes "2021-12-13 10:00:00 0.18 0.09 0.10 12.50% 46.00 normal"

abbrev second_text : List ℕ
second_text = codes "2021-12-13 10:00:05 7821M 2995M 38.29% 47.70%"

abbrev first : Line
first = record {
  kind = Kind.cpu;
  day = codes "2021-12-13";
  hour = codes "10:00:00";
  rest =
      codes "0.18"
      ∷ codes "0.09"
      ∷ codes "0.10"
      ∷ codes "12.50%"
      ∷ codes "46.00"
      ∷ codes "normal"
      ∷ [];
}

abbrev second : Line
second = record {
  kind = Kind.mem;
  day = codes "2021-12-13";
  hour = codes "10:00:05";
  rest = codes "7821M" ∷ codes "2995M" ∷ codes "38.29%" ∷ codes "47.70%" ∷ [];
}

first-IsStorable : IsStorable plain first
unfolding is_urgent build_from
first-IsStorable = record {
  complete = refl;
  short_time = omega arith;
  calm = refl;
  small = omega arith;
  fits = omega arith;
}

second-IsStorable : IsStorable plain second
unfolding is_urgent build_from
second-IsStorable = record {
  complete = refl;
  short_time = omega arith;
  calm = refl;
  small = omega arith;
  fits = omega arith;
}

first-Loses : Loses first (replicate 500 0, unsent sys_cpu first_text)
unfolding fields kind_of
first-Loses = record {
  message = line_msg sys_cpu first_text;
  received = refl;
  lost = refl;
  opened = refl;
  written = refl;
  array = refl;
  line = record {
    kind = refl;
    text = first_text ++ (newline ∷ []);
    read = refl;
    split = refl;
    complete = refl;
    short_time = omega arith;
  };
}

second-Loses : Loses second (replicate 500 0, unsent sys_mem second_text)
unfolding fields kind_of
second-Loses = record {
  message = line_msg sys_mem second_text;
  received = refl;
  lost = refl;
  opened = refl;
  written = refl;
  array = refl;
  line = record {
    kind = refl;
    text = second_text ++ (newline ∷ []);
    read = refl;
    split = refl;
    complete = refl;
    short_time = omega arith;
  };
}

abbrev both : List Line
both = first ∷ second ∷ []

abbrev rounds : List (List ℕ × Calls)
rounds =
    (replicate 500 0, unsent sys_cpu first_text)
    ∷ (replicate 500 0, unsent sys_mem second_text)
    ∷ []

both-CanReplay : (k : Kind) → CanReplay (file_of k fresh.files) (of_kind k both)
both-CanReplay Kind.mem = inr (tt, omega arith)
both-CanReplay Kind.cpu = inr (tt, omega arith)
both-CanReplay Kind.disk = inl refl
both-CanReplay Kind.sys = inl refl

-- The old socket is still open.
abbrev old_link : Link
old_link = record { sockfd = some 3; open_fds = 3 ∷ [] }

abbrev welcome : Answers
welcome = record { connected = some 4; sent = true; ready = true; received = some 1 }

welcome-LetsIn : LetsIn 4 welcome
welcome-LetsIn = record { connected = refl; sent = refl; ready = refl; received = refl }

abbrev queue : TaskQueue
queue = record {
  slots = replicate 5 (line_msg 0 []);
  task_queue_size = 5;
  head = 3;
  tail = 3;
  cur_num = pos 0;
}

queue-IsValid : IsValid queue
unfolding queue_length
queue-IsValid = record {
  positive = omega arith;
  storage = refl;
  head_in = omega arith;
  tail_in = omega arith;
  counted = refl;
}

abbrev server : Server
server = record {
  token = codes "6789";
  clients = [];
  reactor = 8 ∷ 7 ∷ [];
  open_fds = 8 ∷ 7 ∷ [];
  sent = [];
}

reconnection_stores_all_example :
    (t : Sender) × (send_rounds plain rounds fresh ≡ ok t)
    × (t.tcp ≡ [])
    × (r : Replayed) × (relogin_round old_link welcome (λ i. replicate 500 0) (λ i. true) t.files
        ≡ ok (3, record { sockfd = some 4; open_fds = 4 ∷ 3 ∷ [] }, r, empty_files))
    × (tq : TaskQueue) × (dispatch_all server queue (arrivals 8 (resent_msgs r)) ≡ ok (server, tq))
    × (left : TaskQueue) × (turns plain 2 tq
        ≡ some (ok (some (row second) ∷ some (row first) ∷ [], left)))
    × Holds left []
unfolding build_from queue_length
reconnection_stores_all_example =
    reconnection_stores_all plain plain-IsLawful plain-IsLaidOut old_link 4 welcome
      (λ i. replicate 500 0) (λ i. true) both rounds fresh server queue 8
      (first-IsStorable, (second-IsStorable, tt)) (omega arith) (first-Loses, (second-Loses, tt))
      both-CanReplay welcome-LetsIn (λ i. refl) (λ i. refl) queue-IsValid refl (omega arith)
