-- ===== src/Monitor/Exclusion.antt =====
-- vm/monitors.c: what an operation of one thread does to a monitor that another one holds.
use b_jvm.Common.{ℕ, some}
use b_jvm.Monitor.{HeaderWord}

abbrev held_by : ℕ → ℕ → ℕ → HeaderWord
held_by t m c = HeaderWord.expanded_data (record { mark_word = m; tid = some t; hold_count = c })
