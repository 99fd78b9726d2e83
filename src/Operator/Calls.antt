-- ===== src/Operator/Calls.antt =====
-- Methods that return an `error`: the state that the calls of the API server left comes back beside
-- the result, also where it is an error, since what was written stays written.
use e_bpf_kubernetes_operato.Common.{
  Bool, true, false, Option, none, some, ◌≡◌, ◌⊎◌, inl, inr, refl,
}

pub data Result (E A : Type 0) : Type 0 where
  ok : A → Result E A
  err : E → Result E A

abbrev pub is_ok : {E A : Type 0} → Result E A → Bool
is_ok (ok a) = true
is_ok (err e) = false

abbrev pub Action : Type 0 → Type 0 → Type 0 → Type 0
Action S E A = S → Result E A × S

module _ {S E A : Type 0} where
  abbrev pub pure : A → Action S E A
  pure a s = (ok a, s)

  abbrev pub raise : E → Action S E A
  raise e s = (err e, s)

  -- a call that reads, and the error where it fails
  abbrev pub fetch : (S → Option A) → E → Action S E A
  fetch get e s = elim (get s) [ none ↦ (err e, s) | some a ↦ (ok a, s) ]

module _ {S E : Type 0} where
  abbrev pub raise_if : Bool → E → Action S E (Unit {0})
  raise_if c e s = (elim c [ true ↦ err e | false ↦ ok tt ], s)

  -- a call that writes, and the error where it fails
  abbrev pub send : (S → Bool × S) → E → Action S E (Unit {0})
  send call e s = let (done, s') = call s in (elim done [ true ↦ ok tt | false ↦ err e ], s')

infixl 5 ◌>>=◌ ◌>>◌
abbrev pub ◌>>=◌ : {S E A B : Type 0} → Action S E A → (A → Action S E B) → Action S E B
◌>>=◌ m f s = let (r, s') = m s in elim r [ ok a ↦ f a s' | err e ↦ (err e, s') ]

abbrev pub ◌>>◌ : {S E B : Type 0} → Action S E (Unit {0}) → Action S E B → Action S E B
m >> k = m >>= λ _. k

pub Result-cases :
    {E A : Type 0} (r : Result E A) → ((a : A) × (r ≡ ok a)) ⊎ ((e : E) × (r ≡ err e))
Result-cases (ok a) = inl (a, refl)
Result-cases (err e) = inr (e, refl)

module _ {S E A B : Type 0} (m : Action S E A) (f : A → Action S E B) (s : S) where
  pub bind_ok : (a : A) → (m s).0 ≡ ok a → (m >>= f) s ≡ f a (m s).1
  bind_ok a e = rw (e, ◌>>=◌)

  pub bind_err : (e : E) → (m s).0 ≡ err e → (m >>= f) s ≡ (err e, (m s).1)
  bind_err e h = rw (h, ◌>>=◌)
