-- ===== src/Common/Int64.antt =====
-- Go's int64 as bit patterns below 2 ^ 64.
use e_bpf_kubernetes_operato.Common.{ℕ, ◌+◌, ◌-◌, ◌*◌, ◌/◌, ◌%◌, ◌^◌, Bool, not, leb, if◌then◌else◌}

abbrev pub two_63 : ℕ
two_63 = 2 ^ 63

abbrev pub two_64 : ℕ
two_64 = 2 ^ 64

abbrev pub is_negative : ℕ → Bool
is_negative x = leb two_63 x

-- the order of int64 is that of the patterns with the sign turned round
abbrev pub turned : ℕ → ℕ
turned x = (x + two_63) % two_64

abbrev pub ge_int64 : ℕ → ℕ → Bool
ge_int64 x y = leb (turned y) (turned x)

abbrev pub mul_int64 : ℕ → ℕ → ℕ
mul_int64 x y = (x * y) % two_64

abbrev pub add_int64 : ℕ → ℕ → ℕ
add_int64 x y = (x + y) % two_64

-- division rounds towards zero
abbrev pub div_int64 : ℕ → ℕ → ℕ
div_int64 x d = if is_negative x then (two_64 - (two_64 - x) / d) % two_64 else x / d

abbrev pub lt_int64 : ℕ → ℕ → Bool
lt_int64 x y = not (ge_int64 x y)
