-- ===== src/Container/Lookup.antt =====
-- IndexedContainer::get_child on a section whose maps were filled from its children.
use libpsf.Prelude.{
  ℕ, suc, ◌+◌, ◌≡◌, refl, sym, ap, ◌∙◌, Option, none, some, List, [], ◌∷◌, arith, get_elem?,
  Bool-cases, inl, inr,
}
use libpsf.Prelude.Int.{ℤ}
use libpsf.Prelude.Assoc.{Key, ◌==◌, int_eq, bytes_eq}
use libpsf.Outcome.{undefined, not_found, out_of_range, or_throw, ◌>>=◌}
use libpsf.Buffer.{Bytes}
use libpsf.Container.{Indexed, get_child_by_id, get_child_by_name}
use libpsf.Container.Index.{last_with, last_place, IsIndexed}

module _ {ℓ} {C : Type ℓ} where
  -- A place and the child there, or neither
  abbrev at : List C → Option ℕ → Option C
  at xs none = none
  at xs (some i) = get_elem? xs i

  -- A place in the list has a child.
  abbrev InRange : List C → Option ℕ → Type ℓ
  InRange xs o = (i : ℕ) → o ≡ some i → (c : C) × (get_elem? xs i ≡ some c)

  at-or_throw :
      (xs : List C) (o : Option ℕ)
      → InRange xs o
      → (do j ← or_throw o not_found; or_throw (get_elem? xs j) out_of_range)
        ≡ or_throw (at xs o) not_found
  at-or_throw xs none h = refl
  at-or_throw xs (some i) h = rw ((h i refl).1)

  module _ {κ} {K : Type κ} ⦃e : Key K⦄ (key : C → K) where
    last_place-last_with :
        (k : K) (xs cs : List C) (i : ℕ) (o : Option ℕ) (oc : Option C)
        → ((j : ℕ) → get_elem? cs j ≡ get_elem? xs (i + j))
        → InRange xs o
        → at xs o ≡ oc
        → InRange xs (last_place key k i o cs)
          × (at xs (last_place key k i o cs) ≡ last_with key k oc cs)
    unfolding last_place last_with
    last_place-last_with k xs [] i o oc shift r h = (r, h)
    last_place-last_with k xs (c ∷ cs) i o oc shift r h =
        let shift' : (j : ℕ) → get_elem? cs j ≡ get_elem? xs (i + 1 + j) =
          λ j. shift (suc j) ∙ ap (get_elem? xs) (omega arith) in
        let here : get_elem? xs i ≡ some c = ap (get_elem? xs) (omega arith) ∙ sym (shift 0) in
        let r' : InRange xs (some i) = λ j e. (c, ap (get_elem? xs) (cc) ∙ here) in
        elim (Bool-cases (key c == k)) [
          | inl same ↦
              rw same (last_place-last_with k xs cs (i + 1) (some i) (some c) shift' r' here)
          | inr other ↦ rw other (last_place-last_with k xs cs (i + 1) o oc shift' r h)
        ]

  module _ (get_id : C → ℤ) (get_name : C → Bytes) (s : Indexed C)
      (ix : IsIndexed get_id get_name s) where
    -- A name finds the last child that has it, and throws NotFound where no child has it, in a section
    -- whose maps were filled from its children.
    pub get_child_by_name-last_with :
        (name : Bytes)
        → get_child_by_name s name ≡ or_throw (last_with get_name name none s.children) not_found
    unfolding get_child_by_name
    get_child_by_name-last_with name =
        let (r, e) =
          last_place-last_with get_name name s.children s.children 0 none none
            (λ j. ap (get_elem? s.children) (omega arith)) (λ i e. cc) refl in
        rw (ix.by_name name) (at-or_throw s.children _ r ∙ ap (λ o. or_throw o not_found) e)

    -- An id finds the last child that has it; an id that no child has is not an error of the code.
    pub get_child_by_id-last_with :
        (id : ℤ) → get_child_by_id s id ≡ or_throw (last_with get_id id none s.children) undefined
    unfolding get_child_by_id
    get_child_by_id-last_with id = rw (ix.by_id id)
