-- ===== src/Common/Bytes.antt =====
-- Numbers as bytes, the least significant first.
use native.Mathlib.Nat.{pow-suc}
use e_bpf_kubernetes_operato.Common.{
  ℕ, zero, suc, ◌+◌, ◌*◌, ◌/◌, ◌%◌, ◌^◌, ◌<◌, ◌≡◌, refl, List, [], ◌∷◌, ◌++◌, arith, length,
}

unfoldable pub bytes : ℕ → ℕ → List ℕ
bytes zero x = []
bytes (suc n) x = (x % 256) ∷ bytes n (x / 256)

unfoldable pub from_bytes : List ℕ → ℕ
from_bytes [] = 0
from_bytes (b ∷ bs) = b + 256 * from_bytes bs

pub length-bytes : (n x : ℕ) → length (bytes n x) ≡ n
unfolding bytes
length-bytes zero x = refl
length-bytes (suc n) x = omega (arith, length-bytes n (x / 256))

pub from_bytes-bytes : (n x : ℕ) → x < 256 ^ n → from_bytes (bytes n x) ≡ x
unfolding bytes from_bytes
from_bytes-bytes zero x h = omega arith
from_bytes-bytes (suc n) x h =
    let p = pow-suc 256 n in
    let low : x / 256 < 256 ^ n = omega arith in omega (arith, from_bytes-bytes n (x / 256) low)

-- two texts that agree in all and whose first parts are of one length agree in each part
pub append-injective {ℓ} :
    {A : Type ℓ} (a b c d : List A) → length a ≡ length c → a ++ b ≡ c ++ d → (a ≡ c) × (b ≡ d)
append-injective [] b [] d h e = (refl, e)
append-injective [] b (y ∷ c) d h e = absurd (omega arith)
append-injective (x ∷ a) b [] d h e = absurd (omega arith)
append-injective (x ∷ a) b (y ∷ c) d h e =
    let rest : a ++ b ≡ c ++ d = cc in
    let head : x ≡ y = cc in
    let parts = append-injective a b c d (omega arith) rest in (cc, parts.1)
