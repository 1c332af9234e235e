-- ===== src/Prelude/Assoc.antt =====
-- Boolean equality as an interface, and a `std::map` or `unordered_map` as an association list:
-- `insert` is `m[k] = v`, `lookup` is `m.find(k)`. A list keeps the keys in the order of their first
-- insertion; where the order in which a `std::map` iterates can be seen, the keys are put in order.
use libpsf.Prelude.{
  ℕ, ◌≡◌, refl, ◌↔◌, Bool, true, false, ◌&&◌, Option, none, some, List, [], ◌∷◌, ◌++◌, ap,
  Bool-cases, inl, inr, arith, eqb, if◌then◌else◌,
}
use libpsf.Prelude.Int.{ℤ, pos, negsuc, eqb_ℤ}

-- The keys of a map: the test that the map makes, and that it tells when keys are equal.
pub record Key {κ} (K : Type κ) : Type κ where
  pub same : (j k : K) → Bool
  pub same_iff : (j k : K) → (same j k ≡ true) ↔ (j ≡ k)

infix 50 ◌==◌
abbrev pub ◌==◌ {κ} : {K : Type κ} ⦃key : Key K⦄ (j k : K) → Bool
◌==◌ ⦃key⦄ j k = key.same j k

pub eqb_ℤ_iff : (a b : ℤ) → (eqb_ℤ a b ≡ true) ↔ (a ≡ b)
eqb_ℤ_iff (pos a) (pos b) = ground arith
eqb_ℤ_iff (pos a) (negsuc b) = ground arith
eqb_ℤ_iff (negsuc a) (pos b) = ground arith
eqb_ℤ_iff (negsuc a) (negsuc b) = ground arith

pub int_eq_self : (a : ℤ) → eqb_ℤ a a ≡ true
int_eq_self a = (eqb_ℤ_iff a a).1 refl

abbrev pub eqb_bytes : List ℕ → List ℕ → Bool
eqb_bytes [] [] = true
eqb_bytes (x ∷ xs) (y ∷ ys) = eqb x y && eqb_bytes xs ys
eqb_bytes _ _ = false

pub eqb_bytes_iff : (a b : List ℕ) → (eqb_bytes a b ≡ true) ↔ (a ≡ b)
eqb_bytes_iff [] [] = (λ _. refl, λ _. refl)
eqb_bytes_iff [] (y ∷ ys) = ground arith
eqb_bytes_iff (x ∷ xs) [] = ground arith
eqb_bytes_iff (x ∷ xs) (y ∷ ys) = ground (arith, eqb_bytes_iff xs ys)

instance abbrev pub int_eq : Key ℤ
int_eq = record { same = eqb_ℤ; same_iff = eqb_ℤ_iff }

instance abbrev pub bytes_eq : Key (List ℕ)
bytes_eq = record { same = eqb_bytes; same_iff = eqb_bytes_iff }

module _ {κ ℓ} {K : Type κ} {V : Type ℓ} ⦃key : Key K⦄ where
  unfoldable pub lookup : (wanted : K) (entries : List (K × V)) → Option V
  lookup wanted [] = none
  lookup wanted ((k, here) ∷ entries) = if k == wanted then some here else lookup wanted entries

  unfoldable pub insert : (new : K) (value : V) (entries : List (K × V)) → List (K × V)
  insert new value [] = (new, value) ∷ []
  insert new value ((k, here) ∷ entries) =
      if k == new then (new, value) ∷ entries else (k, here) ∷ insert new value entries

  -- What a key finds behind `m[new] = value`
  pub lookup-insert :
      (new wanted : K) (value : V) (entries : List (K × V))
      → lookup wanted (insert new value entries)
        ≡ (if new == wanted then some value else lookup wanted entries)
  unfolding lookup insert
  lookup-insert new wanted value [] = refl
  lookup-insert new wanted value ((k, here) ∷ entries) = ground (
    arith,
    lookup-insert new wanted value entries,
    key.same_iff new wanted,
    key.same_iff k new,
    key.same_iff k wanted,
  )

  -- A new key goes to the end.
  pub insert-fresh :
      (new : K) (value : V) (entries : List (K × V))
      → lookup new entries ≡ none
      → insert new value entries ≡ entries ++ ((new, value) ∷ [])
  unfolding lookup insert
  insert-fresh new value [] missing = refl
  insert-fresh new value ((k, here) ∷ entries) missing = elim (Bool-cases (k == new)) [
    | inl met ↦ absurd (let found : some here ≡ none = rw met at missing in cc)
    | inr other ↦
        rw other
          (ap (λ rest. (k, here) ∷ rest) (insert-fresh new value entries (rw other at missing)))
  ]
