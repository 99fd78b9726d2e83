-- ===== src/Kernel/Types/Task.antt =====
-- A task, from ebpf/vmlinux.h, in three runs of members.
mod Run
mod Process
mod Rest
unfoldable pub use Run.{task_struct_run}
unfoldable pub use Process.{task_struct_process}
unfoldable pub use Rest.{task_struct_rest}
use e_bpf_kubernetes_operato.Kernel.Layout.{CType, struct, ◌+++◌}

unfoldable pub task_struct : CType
unfolding task_struct_run task_struct_process task_struct_rest ◌+++◌
task_struct = struct (task_struct_run +++ task_struct_process +++ task_struct_rest)
