-- ===== src/Message.antt =====
-- common/msg.h: the message types, the buffer sizes, and the message that both programs exchange.
use monitor_system.Base.{ℕ, ◌/◌, ◌%◌, Bool, List, ◌==◌, ◌||◌}

-- Heartbeats.
abbrev pub pi_heart : ℕ
pi_heart = 0x01

abbrev pub pi_ack : ℕ
pi_ack = 0x02

-- Data.
abbrev pub sys_mem : ℕ
sys_mem = 0x04

abbrev pub sys_cpu : ℕ
sys_cpu = 0x08

abbrev pub sys_disk : ℕ
sys_disk = 0x10

abbrev pub sys_sys : ℕ
sys_sys = 0x20

-- The reply to a UDP login.
abbrev pub udp_res : ℕ
udp_res = 0x80

abbrev pub msg_buff_size : ℕ
msg_buff_size = 500

abbrev pub token_len : ℕ
token_len = 20

-- `struct monitor_msg_ds`: `type` is the bit pattern of the `long`, `buff` the bytes of the array.
pub record Msg : Type 0 where
  pub type : ℕ
  pub buff : List ℕ

-- `type & PI_HEART`, that is, bit 0.
abbrev pub has_heart : ℕ → Bool
has_heart type = type % 2 == 1

-- `type & PI_ACK`, that is, bit 1.
abbrev pub has_ack : ℕ → Bool
has_ack type = (type / 2) % 2 == 1

-- The test of `do_dispatch` for a data message.
abbrev pub is_data : ℕ → Bool
is_data type = type == sys_mem || type == sys_cpu || type == sys_disk || type == sys_sys
