-- ===== src/Collect/Tests.antt =====
-- The collecting thread on concrete inputs.
use monitor_system.Base.{◌≡◌, refl, [], some, codes, replicate, arith, stop, exits, out_of_bounds}
use monitor_system.Collect.{check_for, enqueue, check_data}
use monitor_system.Collect.Queued.{Texts, FourMore, printed, all_taken, check_data_result}

abbrev lines : Texts
lines = record {
  mem = codes "d h 1 2 3 4";
  cpu = codes "d h 1 2 3 4 5 normal";
  disk = codes "d h 1 2 3 4";
  sys = codes "d h a b c e f g i j k l m normal warning note";
}

check_data_result_example : FourMore lines (replicate 500 7) []
check_data_result_example =
    check_data_result lines (replicate 500 7) []
      (record { mem = omega arith; cpu = omega arith; disk = omega arith; sys = omega arith }) refl

-- A script that prints nothing ends the client.
no_output :
    check_data (record (printed lines) { disk = some [] }) all_taken (replicate 500 0) []
    ≡ stop exits
unfolding check_data check_for
no_output = refl

-- A text of 100 bytes fills the buffer of the memory data.
full_buffer :
    check_data (printed (record lines { mem = replicate 100 65 })) all_taken (replicate 500 0) []
    ≡ stop out_of_bounds
unfolding check_data check_for enqueue
full_buffer = refl
