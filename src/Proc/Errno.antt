-- ===== src/Proc/Errno.antt =====
-- Values of `errno_t`, src/libk/errno.h. A process may exit with any number, so what holds one is a
-- number.
use sysres_os.Base.{ℕ}

abbrev pub ok : ℕ
ok = 0

abbrev pub max_proc_reached : ℕ
max_proc_reached = 14

abbrev pub too_high_child_priority : ℕ
too_high_child_priority = 15

abbrev pub no_child : ℕ
no_child = 16

abbrev pub invalid_pid : ℕ
invalid_pid = 17

abbrev pub target_not_listening : ℕ
target_not_listening = 18

abbrev pub source_already_acknowledged : ℕ
source_already_acknowledged = 19

abbrev pub send_data_too_large : ℕ
send_data_too_large = 20
