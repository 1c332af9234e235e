-- ===== src/Python/Order.antt =====
-- The order in which bindings/python/psfpython.cc iterates over a `std::map`: what it is of the map's
-- entries, and that keys without NUL make it of no effect.
use libpsf.Prelude.{
  arith, ◌≡◌, refl, ◌∙◌, true, false, Option, none, some, List, [], ◌∷◌, if◌then◌else◌, Bool-cases,
  inl, inr,
}
use mathlib.Core.Path.{subst}
use mathlib.Core.List.{Perm}
use mathlib.Core.List.Perm
use libpsf.Prelude.Assoc.{◌==◌, bytes_eq, eqb_bytes_iff, lookup, insert, lookup-insert}
use libpsf.Buffer.{Bytes}
use libpsf.Scalar.{Scalar}
use libpsf.Python.{c_string, less_bytes, place, map_order}
use libpsf.Python.Dicts.{last_entry}

less_bytes_asymm : (a b : Bytes) → less_bytes a b ≡ true → less_bytes b a ≡ false
unfolding less_bytes
less_bytes_asymm [] [] h = refl
less_bytes_asymm [] (y ∷ ys) h = refl
less_bytes_asymm (x ∷ xs) [] h = absurd (cc)
less_bytes_asymm (x ∷ xs) (y ∷ ys) h = ground (arith, less_bytes_asymm xs ys)

module _ {ℓ} {V : Type ℓ} where
  -- No entry's key is less than `k` where the entries are sorted.
  abbrev Least : Bytes → List (Bytes × V) → Type 0
  Least k [] = Unit
  Least k ((j, w) ∷ xs) = less_bytes j k ≡ false

  abbrev pub IsSorted : List (Bytes × V) → Type 0
  IsSorted [] = Unit
  IsSorted ((k, v) ∷ xs) = Least k xs × IsSorted xs

  -- The entries of a map in the order of their keys
  pub record InMapOrder (order xs : List (Bytes × V)) : Type ℓ where
    pub sorted : IsSorted order
    pub same_entries : Perm order xs

  place-Least :
      (j k : Bytes) (v : V) (xs : List (Bytes × V))
      → Least j xs
      → less_bytes k j ≡ false
      → Least j (place k v xs)
  unfolding place
  place-Least j k v [] h least = least
  place-Least j k v ((i, w) ∷ xs) h least = elim (Bool-cases (less_bytes i k)) [
    | inl before ↦ rw before h
    | inr behind ↦ rw behind least
  ]

  place-IsSorted :
      (k : Bytes) (v : V) (xs : List (Bytes × V)) → IsSorted xs → IsSorted (place k v xs)
  unfolding place
  place-IsSorted k v [] h = (tt, tt)
  place-IsSorted k v ((j, w) ∷ xs) (least, h) = elim (Bool-cases (less_bytes j k)) [
    | inl before ↦
        rw before
          (place-Least j k v xs least (less_bytes_asymm j k before), place-IsSorted k v xs h)
    | inr behind ↦ rw behind (behind, (least, h))
  ]

  place-perm : (k : Bytes) (v : V) (xs : List (Bytes × V)) → Perm (place k v xs) ((k, v) ∷ xs)
  unfolding place
  place-perm k v [] = Perm.refl ((k, v) ∷ [])
  place-perm k v ((j, w) ∷ xs) = elim (Bool-cases (less_bytes j k)) [
    | inl before ↦
        rw before (Perm.trans (Perm.cons (j, w) (place-perm k v xs)) (Perm.swap (k, v) (j, w) xs))
    | inr behind ↦ rw behind (Perm.refl ((k, v) ∷ ((j, w) ∷ xs)))
  ]

  pub map_order-InMapOrder : (xs : List (Bytes × V)) → InMapOrder (map_order xs) xs
  unfolding map_order
  map_order-InMapOrder [] = record { sorted = tt; same_entries = Perm.refl [] }
  map_order-InMapOrder ((k, v) ∷ xs) =
      let h = map_order-InMapOrder xs in
      record {
        sorted = place-IsSorted k v (map_order xs) h.sorted;
        same_entries = Perm.trans (place-perm k v (map_order xs)) (Perm.cons (k, v) h.same_entries);
      }

-- The keys differ from each other, and have no NUL.
abbrev pub AreNames : List (Bytes × Scalar) → Type 0
AreNames [] = Unit
AreNames ((key, x) ∷ xs) = (c_string key ≡ key) × (lookup key xs ≡ none) × AreNames xs

key_differs : (k new : Bytes) → (k == new) ≡ false → (new == k) ≡ false
key_differs k new h = ground (arith, eqb_bytes_iff k new, eqb_bytes_iff new k)

-- A map that is filled by `m[key] = value` has such keys.
pub insert-AreNames :
    (new : Bytes) (v : Scalar) (xs : List (Bytes × Scalar))
    → c_string new ≡ new
    → AreNames xs
    → AreNames (insert new v xs)
unfolding insert lookup
insert-AreNames new v [] plain h = (plain, refl, tt)
insert-AreNames new v ((k, x) ∷ xs) plain (plain_k, fresh, h) = elim (Bool-cases (k == new)) [
  | inl same ↦
      let e : k ≡ new = (eqb_bytes_iff k new).0 same in
      rw same (plain, subst (λ j. lookup j xs ≡ none) e fresh, h)
  | inr other ↦ rw other (
    plain_k,
    lookup-insert new k v xs ∙ rw (key_differs k new other) fresh,
    insert-AreNames new v xs plain h,
  )
]

or_older : {A : Type 0} → Option A → Option A → Option A
or_older none old = old
or_older (some a) old = some a

last_entry-or_older :
    (name : Bytes) (old : Option Scalar) (xs : List (Bytes × Scalar))
    → AreNames xs
    → last_entry name old xs ≡ or_older (lookup name xs) old
unfolding last_entry lookup or_older
last_entry-or_older name old [] h = refl
last_entry-or_older name old ((key, x) ∷ xs) (plain, fresh, h) = elim (Bool-cases (key == name)) [
  | inl same ↦
      let gone : lookup name xs ≡ none =
        subst (λ j. lookup j xs ≡ none) ((eqb_bytes_iff key name).0 same) fresh in
      rw (plain, same) (last_entry-or_older name (some x) xs h ∙ rw gone refl)
  | inr other ↦ rw (plain, other) (last_entry-or_older name old xs h)
]

older_none : {A : Type 0} (o : Option A) → or_older o none ≡ o
unfolding or_older
older_none none = refl
older_none (some a) = refl

-- With such keys the last entry of a name is what the map finds.
pub last_entry-lookup :
    (name : Bytes) (xs : List (Bytes × Scalar))
    → AreNames xs
    → last_entry name none xs ≡ lookup name xs
last_entry-lookup name xs h = last_entry-or_older name none xs h ∙ older_none (lookup name xs)

-- The order of the keys changes nothing for such keys.
key_fresh :
    (k j : Bytes) (w : Scalar) (xs : List (Bytes × Scalar))
    → lookup k ((j, w) ∷ xs) ≡ none
    → ((j == k) ≡ false) × (lookup k xs ≡ none)
unfolding lookup
key_fresh k j w xs h = elim (Bool-cases (j == k)) [
  | inl same ↦ absurd (let f : some w ≡ none = rw same at h in cc)
  | inr other ↦ (other, rw other at h)
]

lookup-place :
    (name k : Bytes) (x : Scalar) (xs : List (Bytes × Scalar))
    → lookup k xs ≡ none
    → lookup name (place k x xs) ≡ (if k == name then some x else lookup name xs)
unfolding lookup place
lookup-place name k x [] h = refl
lookup-place name k x ((j, w) ∷ xs) h =
    let (differ, fresh) = key_fresh k j w xs h in
    elim (Bool-cases (less_bytes j k)) [
      | inl before ↦ rw before (
          ground (
            arith,
            lookup-place name k x xs fresh,
            eqb_bytes_iff j name,
            eqb_bytes_iff k name,
            eqb_bytes_iff j k,
          ))
      | inr behind ↦ rw behind refl
    ]

place-AreNames :
    (k : Bytes) (x : Scalar) (xs : List (Bytes × Scalar))
    → c_string k ≡ k
    → lookup k xs ≡ none
    → AreNames xs
    → AreNames (place k x xs)
unfolding lookup place
place-AreNames k x [] plain new h = (plain, refl, tt)
place-AreNames k x ((j, w) ∷ xs) plain new (plain_j, fresh, h) =
    let (differ, new_rest) = key_fresh k j w xs new in
    elim (Bool-cases (less_bytes j k)) [
      | inl before ↦ rw before (
        plain_j,
        lookup-place j k x xs new_rest ∙ rw (key_differs j k differ) fresh,
        place-AreNames k x xs plain new_rest h,
      )
      | inr behind ↦ rw behind (plain, new, (plain_j, fresh, h))
    ]

pub map_order-AreNames :
    (xs : List (Bytes × Scalar))
    → AreNames xs
    → AreNames (map_order xs) × ((name : Bytes) → lookup name (map_order xs) ≡ lookup name xs)
unfolding lookup map_order
map_order-AreNames [] h = (tt, λ name. refl)
map_order-AreNames ((k, x) ∷ xs) (plain, fresh, h) =
    let (names, same) = map_order-AreNames xs h in
    let new : lookup k (map_order xs) ≡ none = same k ∙ fresh in
    (
      place-AreNames k x (map_order xs) plain new names,
      λ name. lookup-place name k x (map_order xs) new ∙ rw (same name) refl,
    )
