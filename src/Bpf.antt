-- ===== src/Bpf.antt =====
-- The kernel's hash maps that the programs under ebpf/latency share: the interface, a table,
-- the lookup that creates a missing value, and writes through a pointer.
pub mod Map
pub mod Table
pub mod Create
pub mod Write
