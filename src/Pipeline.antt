-- ===== src/Pipeline.antt =====
-- The client's `send_data_to_server` against the server's `deal_with_monitor_msg`: what becomes of a
-- line that a script prints.
pub mod Lookups
pub mod Stored
pub mod Urgent
pub mod Batch
pub mod Collected
pub mod Kept
pub mod Resent
pub mod Kinds
pub mod Messages
pub mod Reconnected
mod ReconnectedTests
mod Tests
use monitor_system.Base.{List, ℕ}
use monitor_system.Storing.{Table, mem_table, cpu_table, disk_table, sys_table}
use monitor_system.Encode.{Kind}

-- The branch of the server for each branch of the client.
abbrev pub table : Kind → Table
table Kind.mem = mem_table
table Kind.cpu = cpu_table
table Kind.disk = disk_table
table Kind.sys = sys_table
