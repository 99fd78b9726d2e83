-- ===== src/Common/Decimal.antt =====
-- `%d` of `fmt` on a number that is not negative, as ASCII digits, and what they stand for.
use e_bpf_kubernetes_operato.Common.{
  ℕ, zero, suc, ◌+◌, ◌-◌, ◌*◌, ◌/◌, ◌%◌, ◌^◌, ◌<◌, ◌≡◌, refl, arith, [], ◌∷◌, ◌++◌, ltb,
  if◌then◌else◌, Bool-cases, inl, inr,
}
use native.Mathlib.Nat.{pow-suc}
use e_bpf_kubernetes_operato.Common.Text.{Text}

-- as many digits as the fuel at most
unfoldable pub digits : ℕ → ℕ → Text
digits zero n = []
digits (suc fuel) n =
    let high = digits fuel (n / 10) in
    if ltb n 10 then (48 + n) ∷ [] else high ++ (48 + n % 10) ∷ []

-- an int64 has at most 19 digits
abbrev pub decimal : ℕ → Text
decimal n = digits 19 n

-- the number that digits stand for, after the digits read so far
unfoldable pub read_decimal : ℕ → Text → ℕ
read_decimal acc [] = acc
read_decimal acc (d ∷ ds) = read_decimal (acc * 10 + (d - 48)) ds

read_decimal-append :
    (acc : ℕ) (ds es : Text) → read_decimal acc (ds ++ es) ≡ read_decimal (read_decimal acc ds) es
unfolding read_decimal
read_decimal-append acc [] es = refl
read_decimal-append acc (d ∷ ds) es = read_decimal-append (acc * 10 + (d - 48)) ds es

-- With enough fuel for its digits, the number is read back from them.
pub read_decimal-digits : (fuel n : ℕ) → n < 10 ^ fuel → read_decimal 0 (digits fuel n) ≡ n
unfolding digits read_decimal
read_decimal-digits zero n lt = omega arith
read_decimal-digits (suc fuel) n lt = elim (Bool-cases (ltb n 10)) [
  | inl small ↦ rw small (omega arith)
  | inr large ↦
      let p = pow-suc 10 fuel in
      let ih = read_decimal-digits fuel (n / 10) (omega arith) in
      rw (large, read_decimal-append 0 (digits fuel (n / 10)) ((48 + n % 10) ∷ []), ih)
        (omega arith)
]
