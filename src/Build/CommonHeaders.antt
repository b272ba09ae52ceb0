-- ===== src/Build/CommonHeaders.antt =====
-- The headers of common/, line by line: color.h, msg.h, common.h and head.h.
use monitor_system.Base.{ℕ, List, [], ◌∷◌, String, codes}
use monitor_system.Message.{msg_buff_size}
use monitor_system.Build.{
  int, long, char, pointer, const, array, Line, include, external, define, ifndef, otherwise, endif,
  struct, prototype,
}

-- A string that starts with `\e`.
abbrev escape : String → List ℕ
escape s = 27 ∷ codes s

abbrev pub color_h : List Line
color_h =
    ifndef (codes "_COLOR_H")
    ∷ define (codes "_COLOR_H") []
    ∷ define (codes "NONE") (escape "[0m")
    ∷ define (codes "L_BLACK") (escape "[1;30m")
    ∷ define (codes "RED") (escape "[0;31m")
    ∷ define (codes "L_RED") (escape "[1;31m")
    ∷ define (codes "GREEN") (escape "[0;32m")
    ∷ define (codes "L_GREEN") (escape "[1;32m")
    ∷ define (codes "BROWN") (escape "[0;33m")
    ∷ define (codes "YELLOW") (escape "[1;33m")
    ∷ define (codes "BLUE") (escape "[0;34m")
    ∷ define (codes "L_BLUE") (escape "[1;34m")
    ∷ define (codes "PINK") (escape "[0;35m")
    ∷ define (codes "L_PINK") (escape "[1;35m")
    ∷ define (codes "CYAN") (escape "[0;36m")
    ∷ define (codes "L_CYAN") (escape "[1;36m")
    ∷ define (codes "GRAY") (escape "[0;37m")
    ∷ define (codes "WHITE") (escape "[1;37m")
    ∷ define (codes "BOLD") (escape "[1m")
    ∷ define (codes "UNDERLINE") (escape "[4m")
    ∷ define (codes "BLINK") (escape "[5m")
    ∷ define (codes "REVERSE") (escape "[7m")
    ∷ define (codes "HIDE") (escape "[8m")
    ∷ define (codes "CLEAR") (escape "[2J")
    ∷ define (codes "CLRLINE") (13 ∷ escape "[K")
    ∷ ifndef (codes "_R")
    ∷ define (codes "DBG") (codes "(fmt, args...) printf(fmt, ##args)")
    ∷ otherwise
    ∷ define (codes "DBG") (codes "(fmt, args...)")
    ∷ endif
    ∷ endif
    ∷ []

abbrev pub msg_h : List Line
msg_h =
    ifndef (codes "_MONITOR_H")
    ∷ define (codes "_MONITOR_H") []
    ∷ define (codes "PI_HEART") (codes "0x01")
    ∷ define (codes "PI_ACK") (codes "0x02")
    ∷ define (codes "SYS_MEM") (codes "0x04")
    ∷ define (codes "SYS_CPU") (codes "0x08")
    ∷ define (codes "SYS_DISK") (codes "0x10")
    ∷ define (codes "SYS_SYS") (codes "0x20")
    ∷ define (codes "UDP_RES") (codes "0x80")
    ∷ define (codes "MSG_BUFF_SIZE") (codes "500")
    ∷ define (codes "TOKEN_LEN") (codes "20")
    ∷ struct (codes "monitor_msg_ds")
        ((long, codes "type") ∷ ((array msg_buff_size char), codes "buff") ∷ [])
    ∷ endif
    ∷ []

abbrev pub common_h : List Line
common_h =
    ifndef (codes "_COMMON_H")
    ∷ define (codes "_COMMON_H") []
    ∷ prototype int (codes "socket_create") (int ∷ [])
    ∷ prototype int (codes "socket_create_udp") (int ∷ [])
    ∷ prototype int (codes "socket_connect") ((pointer (const char)) ∷ int ∷ [])
    ∷ prototype (pointer char) (codes "get_conf_value")
        ((pointer (const char)) ∷ (pointer (const char)) ∷ [])
    ∷ prototype int (codes "accept_udp") (int ∷ int ∷ [])
    ∷ prototype int (codes "socket_connect_udp")
        ((pointer (const char)) ∷ int ∷ (pointer (const char)) ∷ [])
    ∷ endif
    ∷ []

abbrev pub head_h : List Line
head_h =
    ifndef (codes "_HEAD_H")
    ∷ define (codes "_HEAD_H") []
    ∷ external (codes "stdio.h")
    ∷ external (codes "unistd.h")
    ∷ external (codes "stdlib.h")
    ∷ external (codes "sys/stat.h")
    ∷ external (codes "sys/types.h")
    ∷ external (codes "dirent.h")
    ∷ external (codes "string.h")
    ∷ external (codes "fcntl.h")
    ∷ external (codes "sys/wait.h")
    ∷ external (codes "sys/file.h")
    ∷ external (codes "sys/ipc.h")
    ∷ external (codes "sys/shm.h")
    ∷ external (codes "pthread.h")
    ∷ external (codes "errno.h")
    ∷ external (codes "sys/sem.h")
    ∷ external (codes "sys/socket.h")
    ∷ external (codes "arpa/inet.h")
    ∷ external (codes "sys/time.h")
    ∷ external (codes "poll.h")
    ∷ external (codes "sys/epoll.h")
    ∷ external (codes "locale.h")
    ∷ external (codes "pwd.h")
    ∷ external (codes "grp.h")
    ∷ external (codes "ctype.h")
    ∷ external (codes "sys/ioctl.h")
    ∷ external (codes "math.h")
    ∷ external (codes "sys/msg.h")
    ∷ include (codes "color.h")
    ∷ include (codes "msg.h")
    ∷ include (codes "common.h")
    ∷ external (codes "mysql/mysql.h")
    ∷ external (codes "cJSON/cJSON.h")
    ∷ include (codes "../server/thread_pool/thread_poll.h")
    ∷ include (codes "../server/db_connection_pool/db_connection_pool.h")
    ∷ endif
    ∷ []
