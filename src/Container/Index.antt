-- ===== src/Container/Index.antt =====
-- The maps of an indexed section: which child an id or a name finds.
use libpsf.Prelude.{
  ℕ, ◌+◌, ◌≡◌, refl, ap, ◌∙◌, Option, none, some, List, [], ◌∷◌, All, if◌then◌else◌, Bool-cases,
  inl, inr,
}
use mathlib.Core.Path.{subst}
use libpsf.Prelude.Int.{ℤ}
use libpsf.Prelude.Assoc.{Key, ◌==◌, int_eq, bytes_eq, lookup, insert, lookup-insert}
use libpsf.Buffer.{Bytes}
use libpsf.Container.{Indexed, fill_idmap, fill_namemap, make_indexed}

module _ {ℓ κ} {C : Type ℓ} {K : Type κ} ⦃e : Key K⦄ (key : C → K) where
  -- The last child with a key, and the place of it; `o` where there is none.
  unfoldable pub last_with : K → Option C → List C → Option C
  last_with k o [] = o
  last_with k o (c ∷ cs) = last_with k (if key c == k then some c else o) cs

  unfoldable pub last_place : K → ℕ → Option ℕ → List C → Option ℕ
  last_place k i o [] = o
  last_place k i o (c ∷ cs) = last_place k (i + 1) (if key c == k then some i else o) cs

  pub All-last_with :
      (Q : C → Type 0) (k : K) (o : Option C) (cs : List C)
      → All Q cs
      → ((c : C) → o ≡ some c → Q c)
      → (c : C) → last_with k o cs ≡ some c
      → Q c
  unfolding last_with
  All-last_with Q k o [] qs h c found = h c found
  All-last_with Q k o (d ∷ cs) (q, qs) h c found = elim (Bool-cases (key d == k)) [
    | inl same ↦ All-last_with Q k (some d) cs qs (λ x s. subst Q (cc) q) c (rw same at found)
    | inr other ↦ All-last_with Q k o cs qs h c (rw other at found)
  ]

module _ {ℓ} {C : Type ℓ} (get_id : C → ℤ) (get_name : C → Bytes) where
  lookup-fill_idmap :
      (id : ℤ) (cs : List C) (m : List (ℤ × C))
      → lookup id (fill_idmap get_id get_name cs m) ≡ last_with get_id id (lookup id m) cs
  unfolding fill_idmap last_with
  lookup-fill_idmap id [] m = refl
  lookup-fill_idmap id (c ∷ cs) m =
      lookup-fill_idmap id cs (insert (get_id c) c m)
      ∙ ap (λ o. last_with get_id id o cs) (lookup-insert (get_id c) id c m)

  lookup-fill_namemap :
      (name : Bytes) (i : ℕ) (cs : List C) (m : List (Bytes × ℕ))
      → lookup name (fill_namemap get_id get_name i cs m)
        ≡ last_place get_name name i (lookup name m) cs
  unfolding fill_namemap last_place
  lookup-fill_namemap name i [] m = refl
  lookup-fill_namemap name i (c ∷ cs) m =
      lookup-fill_namemap name (i + 1) cs (insert (get_name c) i m)
      ∙ ap (λ o. last_place get_name name (i + 1) o cs) (lookup-insert (get_name c) name i m)

  -- The maps find the last child of an id and the place of the last child of a name.
  pub record IsIndexed (s : Indexed C) : Type ℓ where
    pub by_id : (id : ℤ) → lookup id s.idmap ≡ last_with get_id id none s.children
    pub by_name :
        (name : Bytes) → lookup name s.namemap ≡ last_place get_name name 0 none s.children

  -- The maps that are filled from the children find, for every id and name, the last child of the id
  -- and the place of the last child of the name, or nothing where there is none.
  pub make_indexed-IsIndexed : (cs : List C) → IsIndexed (make_indexed get_id get_name cs)
  unfolding make_indexed lookup
  make_indexed-IsIndexed cs = record {
    by_id = λ id. lookup-fill_idmap id cs [];
    by_name = λ name. lookup-fill_namemap name 0 cs [];
  }
