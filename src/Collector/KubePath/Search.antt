-- ===== src/Collector/KubePath/Search.antt =====
-- Searches of a path for a literal start and a group: what is skipped, and where none matches.
use e_bpf_kubernetes_operato.Common.{
  ℕ, zero, suc, length, ◌<◌, Bool, true, false, not, ◌&&◌, none, List, [], ◌∷◌, ◌++◌, ◌==◌, ==_iff,
  ◌≡◌, refl, arith,
}
use e_bpf_kubernetes_operato.Common.Text.{Text, replace_byte}
use e_bpf_kubernetes_operato.Collector.KubePath.{
  ByteClass, literal, fits, is_hex, hexes, take_group, after_start, match_here, find_submatch,
}
use e_bpf_kubernetes_operato.Collector.KubePath.Shape.{has_shape}

-- no byte of the text is the byte
abbrev pub is_without : ℕ → Text → Bool
is_without x [] = true
is_without x (b ∷ s) = not (x == b) && is_without x s

-- a text without the first byte of the start is skipped
pub find_submatch-without :
    (x : ℕ) (start : Text) (g : List ByteClass) (s rest : Text)
    → is_without x s ≡ true
    → find_submatch (x ∷ start) g (s ++ rest) ≡ find_submatch (x ∷ start) g rest
unfolding find_submatch match_here after_start
find_submatch-without x start g [] rest h = refl
find_submatch-without x start g (b ∷ s) rest h =
    ground (arith, find_submatch-without x start g s rest)

-- the text has another separator than the group
pub take_group-clash :
    (n x y : ℕ) (g g' : List ByteClass) (s rest : Text)
    → (x == y) ≡ false
    → has_shape (hexes n (literal y ∷ g')) s ≡ true
    → take_group (hexes n (literal x ∷ g)) (s ++ rest) ≡ none
unfolding take_group
take_group-clash zero x y g g' [] rest other h = absurd (ground arith)
take_group-clash zero x y g g' (b ∷ s) rest other h = ground (arith, ==_iff y b)
take_group-clash (suc n) x y g g' [] rest other h = absurd (ground arith)
take_group-clash (suc n) x y g g' (b ∷ s) rest other h =
    ground (arith, take_group-clash n x y g g' s rest other)

-- a byte that fits no class of a group is not in a text of its shape
abbrev pub lacks : ℕ → List ByteClass → Bool
lacks x [] = true
lacks x (c ∷ cs) = not (fits c x) && lacks x cs

pub without-shape :
    (x : ℕ) (cs : List ByteClass) (s : Text)
    → lacks x cs ≡ true
    → has_shape cs s ≡ true
    → is_without x s ≡ true
without-shape x [] [] l h = refl
without-shape x [] (b ∷ s) l h = absurd (ground arith)
without-shape x (c ∷ cs) [] l h = absurd (ground arith)
without-shape x (c ∷ cs) (b ∷ s) l h = ground (arith, ==_iff x b, without-shape x cs s)

pub length-shape : (cs : List ByteClass) (s : Text) → has_shape cs s ≡ true → length s ≡ length cs
length-shape [] [] h = refl
length-shape [] (b ∷ s) h = absurd (ground arith)
length-shape (c ∷ cs) [] h = absurd (ground arith)
length-shape (c ∷ cs) (b ∷ s) h = ground (arith, length-shape cs s)

pub replace_byte-back :
    (x y : ℕ) (s : Text) → is_without y s ≡ true → replace_byte y x (replace_byte x y s) ≡ s
replace_byte-back x y [] h = refl
replace_byte-back x y (b ∷ s) h =
    ground
      (arith, ==_iff y b, ==_iff b y, ==_iff b x, ==_iff y y, ==_iff x y, replace_byte-back x y s)

-- digits that do not go on for long enough
pub take_group-blocked :
    (n b : ℕ) (s rest : Text)
    → length s < n
    → is_hex b ≡ false
    → take_group (hexes n []) (s ++ (b ∷ rest)) ≡ none
unfolding take_group
take_group-blocked zero b s rest lt no_digit = absurd (omega arith)
take_group-blocked (suc n) b [] rest lt no_digit = ground (arith, no_digit)
take_group-blocked (suc n) b (x ∷ s) rest lt no_digit =
    ground (arith, take_group-blocked n b s rest)

pub find_submatch-blocked :
    (n b : ℕ) (s rest : Text)
    → length s < n
    → is_hex b ≡ false
    → find_submatch [] (hexes n []) (s ++ (b ∷ rest)) ≡ find_submatch [] (hexes n []) rest
unfolding find_submatch match_here after_start
find_submatch-blocked n b [] rest lt no_digit =
    ground (arith, take_group-blocked n b [] rest lt no_digit)
find_submatch-blocked n b (x ∷ s) rest lt no_digit = ground (
  arith,
  take_group-blocked n b (x ∷ s) rest lt no_digit,
  find_submatch-blocked n b s rest (omega arith) no_digit,
)

pub find_submatch-skip :
    (start : Text) (g : List ByteClass) (b : ℕ) (s : Text)
    → match_here start g (b ∷ s) ≡ none
    → find_submatch start g (b ∷ s) ≡ find_submatch start g s
unfolding find_submatch
find_submatch-skip start g b s h = ground (arith, h)
