-- ===== src/Kernel/Read/Tasks.antt =====
-- What the programs of runq_latency.c read of a task in memory: the keys of two tasks.
use e_bpf_kubernetes_operato.Common.{ℕ, ◌+◌, ◌^◌, ◌<◌, ◌≡◌, ◌↔◌, true, ap}
use e_bpf_kubernetes_operato.Kernel.Layout.{size, find}
use e_bpf_kubernetes_operato.Kernel.Read.{Memory, core_read, task_at}
use e_bpf_kubernetes_operato.Kernel.Read.Local.{load-lt}
use e_bpf_kubernetes_operato.Kernel.Types.Task.{task_struct}
use e_bpf_kubernetes_operato.Runq.{RunqKey, same_key, same_key_iff, fill_key}
use e_bpf_kubernetes_operato.Runq.Key.{InRange, key_memory, key_memory-injective}

pid-lt : (m : Memory) (p : ℕ) → core_read task_struct "pid" m p < 2 ^ 32
unfolding core_read find size task_struct
pid-lt m p = load-lt 4 m (p + 2432)

start_time-lt : (m : Memory) (p : ℕ) → core_read task_struct "start_time" m p < 2 ^ 64
unfolding core_read find size task_struct
start_time-lt m p = load-lt 8 m (p + 2776)

fill_key-InRange : (m : Memory) (p : ℕ) → InRange (fill_key (task_at m p))
unfolding task_at
fill_key-InRange m p = (pid-lt m p, start_time-lt m p)

-- two tasks in memory have the same `pid` and the same `start_time`
abbrev pub IsSameTask : Memory → ℕ → ℕ → Type 0
IsSameTask m p q =
    (core_read task_struct "pid" m p ≡ core_read task_struct "pid" m q)
    × (core_read task_struct "start_time" m p ≡ core_read task_struct "start_time" m q)

same_key-task_at :
    (m : Memory) (p q : ℕ)
    → (same_key (fill_key (task_at m p)) (fill_key (task_at m q)) ≡ true) ↔ IsSameTask m p q
unfolding task_at
same_key-task_at m p q =
    let (into, back) = same_key_iff (fill_key (task_at m p)) (fill_key (task_at m q)) in
    (
      λ e. (ap (λ (k : RunqKey). k.pid) (into e), ap (λ (k : RunqKey). k.start_time) (into e)),
      λ s. back (cc (s.0, s.1)),
    )

-- Whatever the kernel's memory: the map finds the keys of two tasks to be the same exactly when the
-- tasks have the same `pid` and the same `start_time` there, and so does the kernel, which compares
-- the sixteen bytes of the keys with their padding.
pub key_memory-task_at :
    (m : Memory) (p q : ℕ)
    → ((same_key (fill_key (task_at m p)) (fill_key (task_at m q)) ≡ true) ↔ IsSameTask m p q)
      × ((key_memory (fill_key (task_at m p)) ≡ key_memory (fill_key (task_at m q)))
          ↔ IsSameTask m p q)
key_memory-task_at m p q =
    let (into, back) = same_key-task_at m p q in
    let (read, write) =
      key_memory-injective (fill_key (task_at m p)) (fill_key (task_at m q)) (fill_key-InRange m p)
        (fill_key-InRange m q) in
    ((into, back), (λ e. into (read e), λ s. write (back s)))
