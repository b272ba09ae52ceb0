-- ===== src/Encode/Deliver.antt =====
-- One round of the loop of `send_data_to_server`: the object is printed and sent, or kept in a file.
use monitor_system.Base.{
  ℕ, ◌+◌, List, [], ◌∷◌, ◌++◌, Option, none, some, Bool, true, false, length, ◌==◌, if◌then◌else◌,
  Exec, ok, stop, exits, ◌>>=◌, c_str, write_str,
}
use monitor_system.Message.{Msg}
use monitor_system.Json.{Cjson}
use monitor_system.Offline.{DataFile, persist}
use monitor_system.Reconnect.{Files, try_to_relogin}
use monitor_system.Encode.{Kind, type_of, kind_of, object_of, is_urgent}

-- The state that the thread changes: the counter of failures, the signals to the thread that logs in
-- again, the files of unsent data, and the messages that went out, the latest last.
pub record Sender : Type 0 where
  pub check_for_relogin : ℕ
  pub signals : ℕ
  pub files : Files
  pub tcp : List Msg
  pub udp : List Msg

-- What the system calls of one round answer.
pub record Calls : Type 0 where
  -- `msgrcv`, into an array set to 0; `none` on an error
  pub received : Option Msg
  -- `send` to the server
  pub sent : Bool
  -- `open_file` and `write`
  pub opened : Bool
  pub written : Bool

abbrev pub file_of : Kind → Files → DataFile
file_of Kind.mem fs = fs.mem
file_of Kind.cpu fs = fs.cpu
file_of Kind.disk fs = fs.disk
file_of Kind.sys fs = fs.sys

abbrev pub put_file : Kind → DataFile → Files → Files
put_file Kind.mem f fs = record fs { mem = f }
put_file Kind.cpu f fs = record fs { cpu = f }
put_file Kind.disk f fs = record fs { disk = f }
put_file Kind.sys f fs = record fs { sys = f }

-- `try_to_relogin()` stands in the branch for memory data only.
unfoldable pub note_failure : Kind → Sender → Sender
note_failure Kind.mem s =
    let r = try_to_relogin s.check_for_relogin in
    record s { check_for_relogin = r.0; signals = if r.1 then s.signals + 1 else s.signals }
note_failure Kind.cpu s = s
note_failure Kind.disk s = s
note_failure Kind.sys s = s

-- The last part of a branch. The result of `send` by UDP is not looked at.
unfoldable pub deliver : Kind → Bool → Calls → Msg → List ℕ → Sender → Exec Sender
unfolding note_failure
deliver k true calls msg str s = ok (record s { udp = s.udp ++ (msg ∷ []) })
deliver k false calls msg str s =
    if calls.sent
    then ok (record s { tcp = s.tcp ++ (msg ∷ []) })
    else (persist calls.opened calls.written (file_of k s.files) str >>= λ f.
        ok (note_failure k (record s { files = put_file k f s.files })))

-- One branch, on the string in `m.buff`. `old` is what the uninitialised array of `msg` holds.
unfoldable pub send_record : Cjson → Kind → List ℕ → Calls → List ℕ → Sender → Exec Sender
unfolding deliver
send_record json k old calls text s = object_of json k text >>= λ o.
    write_str old (json.print o) >>= λ filled. is_urgent json k o >>= λ urgent.
    deliver k urgent calls (record { type = type_of k; buff = filled }) (json.print o) s

abbrev pub branch : Cjson → Option Kind → List ℕ → Calls → List ℕ → Sender → Exec Sender
branch json none old calls buff s = ok s
branch json (some k) old calls buff s = c_str buff >>= λ text.
    if length text == 0 then stop exits else send_record json k old calls text s

abbrev pub on_received : Cjson → Option Msg → List ℕ → Calls → Sender → Exec Sender
on_received json none old calls s = stop exits
on_received json (some m) old calls s = branch json (kind_of m.type) old calls m.buff s

unfoldable pub send_data_to_server : Cjson → List ℕ → Calls → Sender → Exec Sender
unfolding send_record
send_data_to_server json old calls s = on_received json calls.received old calls s
