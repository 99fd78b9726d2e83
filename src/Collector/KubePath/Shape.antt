-- ===== src/Collector/KubePath/Shape.antt =====
-- The shape of what the parser of paths returns.
use e_bpf_kubernetes_operato.Common.{
  ℕ, Bool, true, false, ◌&&◌, Option, none, some, List, [], ◌∷◌, ◌++◌, ◌==◌, ==_iff, ◌≡◌, ◌≢◌, ◌⊎◌,
  refl, arith, inl, inr, if◌then◌else◌, Option-cases,
}
use e_bpf_kubernetes_operato.Common.Text.{Text, codes, replace_byte}
use e_bpf_kubernetes_operato.Collector.KubePath.{
  ByteClass, literal, hex, is_hex, fits, uid_group, take_group, after_start, match_here,
  find_submatch, pod_uid_of, parse_kube_path,
}

-- the whole text is one match of the group
abbrev pub has_shape : List ByteClass → Text → Bool
has_shape [] [] = true
has_shape [] (b ∷ s) = false
has_shape (c ∷ cs) [] = false
has_shape (c ∷ cs) (b ∷ s) = fits c b && has_shape cs s

take_group-shape :
    (cs : List ByteClass) (s t : Text) → take_group cs s ≡ some t → has_shape cs t ≡ true
unfolding take_group
take_group-shape [] s t h = ground (arith, h)
take_group-shape (c ∷ cs) [] t h = absurd (ground arith)
take_group-shape (c ∷ cs) (b ∷ s) t h = elim (Option-cases (take_group cs s)) [
  | inl e ↦ absurd (ground (arith, e))
  | inr (u, e) ↦
      let parts : (t ≡ b ∷ u) × (fits c b ≡ true) = ground (arith, e) in
      rw parts.0 (ground (arith, parts.1, take_group-shape cs s u e))
]

match_here-shape :
    (start : Text) (cs : List ByteClass) (s t : Text)
    → match_here start cs s ≡ some t
    → has_shape cs t ≡ true
unfolding match_here
match_here-shape start cs s t h = elim (Option-cases (after_start start s)) [
  | inl e ↦ absurd (ground (arith, e))
  | inr (u, e) ↦ take_group-shape cs u t (ground (arith, e))
]

find_submatch-shape :
    (start : Text) (cs : List ByteClass) (s t : Text)
    → find_submatch start cs s ≡ some t
    → has_shape cs t ≡ true
unfolding find_submatch
find_submatch-shape start cs [] t h = match_here-shape start cs [] t h
find_submatch-shape start cs (b ∷ s) t h = elim (Option-cases (match_here start cs (b ∷ s))) [
  | inl e ↦ find_submatch-shape start cs s t (ground (arith, e))
  | inr (u, e) ↦ match_here-shape start cs (b ∷ s) t (ground (arith, e))
]

-- a group with one literal byte for another
abbrev replace_class : ℕ → ℕ → ByteClass → ByteClass
replace_class old new (literal x) = literal (if x == old then new else x)
replace_class old new hex = hex

abbrev replace_group : ℕ → ℕ → List ByteClass → List ByteClass
replace_group old new [] = []
replace_group old new (c ∷ cs) = replace_class old new c ∷ replace_group old new cs

-- replacing a byte that is no digit leaves the digits
pub shape-replace_byte :
    (old new : ℕ) (cs : List ByteClass) (s : Text)
    → is_hex old ≡ false
    → has_shape cs s ≡ true
    → has_shape (replace_group old new cs) (replace_byte old new s) ≡ true
shape-replace_byte old new [] [] no_digit h = refl
shape-replace_byte old new [] (b ∷ s) no_digit h = absurd (ground arith)
shape-replace_byte old new (c ∷ cs) [] no_digit h = absurd (ground arith)
shape-replace_byte old new (literal x ∷ cs) (b ∷ s) no_digit h =
    ground (arith, ==_iff x b, shape-replace_byte old new cs s no_digit)
shape-replace_byte old new (hex ∷ cs) (b ∷ s) no_digit h =
    ground (arith, ==_iff b old, shape-replace_byte old new cs s no_digit)

abbrev pub search_uid : ℕ → Text → Option Text
search_uid sep path = find_submatch (codes "pod") (uid_group sep) path

-- either no identifier stands in the path, or the one found has the shape
pod_uid_of-cases :
    (path : Text)
    → ((search_uid b'-' path ≡ none) × (search_uid b'_' path ≡ none) × (pod_uid_of path ≡ []))
      ⊎ (has_shape (uid_group b'-') (pod_uid_of path) ≡ true)
unfolding pod_uid_of
pod_uid_of-cases path = elim (Option-cases (search_uid b'-' path)) [
  | inr (uid, e) ↦
      let eq : pod_uid_of path ≡ uid = ground (arith, e) in
      inr (rw eq (find_submatch-shape (codes "pod") (uid_group b'-') path uid e))
  | inl e ↦ elim (Option-cases (search_uid b'_' path)) [
    | inl e' ↦ inl (e, e', ground (arith, e, e'))
    | inr (uid, e') ↦
        let shape = find_submatch-shape (codes "pod") (uid_group b'_') path uid e' in
        let eq : pod_uid_of path ≡ replace_byte b'_' b'-' uid = ground (arith, e, e') in
        inr (rw eq (shape-replace_byte b'_' b'-' (uid_group b'_') uid refl shape))
  ]
]

pub take_group-found :
    (cs : List ByteClass) (uid post : Text)
    → has_shape cs uid ≡ true
    → take_group cs (uid ++ post) ≡ some uid
unfolding take_group
take_group-found [] [] post h = refl
take_group-found [] (b ∷ uid) post h = absurd (ground arith)
take_group-found (c ∷ cs) [] post h = absurd (ground arith)
take_group-found (c ∷ cs) (b ∷ uid) post h = ground (arith, take_group-found cs uid post)

after_start-append : (start s : Text) → after_start start (start ++ s) ≡ some s
unfolding after_start
after_start-append [] s = refl
after_start-append (x ∷ start) s = ground (arith, ==_iff x x, after_start-append start s)

pub match_here-found :
    (start : Text) (cs : List ByteClass) (uid post : Text)
    → has_shape cs uid ≡ true
    → match_here start cs (start ++ (uid ++ post)) ≡ some uid
unfolding match_here
match_here-found start cs uid post h =
    ground (arith, after_start-append start (uid ++ post), take_group-found cs uid post h)

pub find_submatch-here :
    (start : Text) (cs : List ByteClass) (s t : Text)
    → match_here start cs s ≡ some t
    → find_submatch start cs s ≡ some t
unfolding find_submatch
find_submatch-here start cs [] t h = h
find_submatch-here start cs (b ∷ s) t h = ground (arith, h)

-- an earlier match may be found, but not none
find_submatch-found :
    (start : Text) (cs : List ByteClass) (pre s t : Text)
    → match_here start cs s ≡ some t
    → find_submatch start cs (pre ++ s) ≢ none
unfolding find_submatch
find_submatch-found start cs [] s t h e = ground (arith, find_submatch-here start cs s t h)
find_submatch-found start cs (b ∷ pre) s t h e =
    ground (arith, find_submatch-found start cs pre s t h)

search_uid-found :
    (sep : ℕ) (pre uid post : Text)
    → has_shape (uid_group sep) uid ≡ true
    → search_uid sep (pre ++ (codes "pod" ++ (uid ++ post))) ≢ none
search_uid-found sep pre uid post h =
    find_submatch-found (codes "pod") (uid_group sep) pre (codes "pod" ++ (uid ++ post)) uid
      (match_here-found (codes "pod") (uid_group sep) uid post h)

-- A path with `pod` and an identifier, its groups separated by dashes or by underscores, gives an
-- identifier with dashes, wherever in the path it stands.
pub parse_kube_path-finds :
    (pre uid post : Text)
    → (has_shape (uid_group b'-') uid ≡ true) ⊎ (has_shape (uid_group b'_') uid ≡ true)
    → has_shape (uid_group b'-') (parse_kube_path (pre ++ (codes "pod" ++ (uid ++ post)))).pod_uid
      ≡ true
unfolding parse_kube_path
parse_kube_path-finds pre uid post h =
    elim (pod_uid_of-cases (pre ++ (codes "pod" ++ (uid ++ post)))) [
      | inr shape ↦ shape
      | inl (e, e', _) ↦ elim h [
        | inl dashes ↦ absurd (search_uid-found b'-' pre uid post dashes e)
        | inr underscores ↦ absurd (search_uid-found b'_' pre uid post underscores e')
      ]
    ]
