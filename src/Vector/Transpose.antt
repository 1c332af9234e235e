-- ===== src/Vector/Transpose.antt =====
-- VectorStruct(const StructVector &): the vector of structs is turned into a struct of vectors.
use libpsf.Prelude.{
  ℕ, suc, ◌+◌, ◌≡◌, refl, sym, ap, true, none, some, List, [], ◌∷◌, ◌++◌, map, length, arith,
  append_assoc, append-nil, replicate, lt→ltb, length-append,
}
use libpsf.Prelude.Assoc.{bytes_eq, lookup, insert-fresh}
use libpsf.Outcome.{ok}
use libpsf.Buffer.{Bytes}
use libpsf.Scalar.{Scalar, struct, Fields, find_field}
use libpsf.TypeDef.{structdef, Children, nil, cons, get_name}
use libpsf.Vector.{
  Vector, new_vector, assign_scalar, same_class, vector_struct, init_from_structdef, assign_fields,
  copy_vectors, field_of,
}
use libpsf.Vector.Fill.{filled, filled_zero, resize_new, new_vector-empty, set-append}

-- The values of the item `key` in the structs, which have the class of `init`
abbrev pub IsColumn : Bytes → Scalar → List Scalar → List Scalar → Type 0
IsColumn key init [] [] = Unit
IsColumn key init (s ∷ ss) (y ∷ ys) =
    ((fs : Fields) × (s ≡ struct fs) × (find_field key fs ≡ some y) × (same_class init y ≡ true))
    × IsColumn key init ss ys
IsColumn key init _ _ = ⊥

-- An item of the struct: its name, an empty vector of its type, and its column
pub record Item : Type 0 where
  pub key : Bytes
  pub empty : Vector
  pub column : List Scalar

abbrev pub empty_entry : Item → Bytes × Vector
empty_entry i = (i.key, i.empty)

abbrev pub full_entry : Item → Bytes × Vector
full_entry i = (i.key, record i.empty { values = i.column })

abbrev pub AreItems : List Scalar → Children → List Item → Type 0
AreItems structs nil [] = Unit
AreItems structs (cons d ds) (i ∷ is) =
    ((get_name d ≡ i.key)
      × (new_vector d ≡ ok i.empty)
      × IsColumn i.key i.empty.init structs i.column)
    × AreItems structs ds is
AreItems structs _ _ = ⊥

-- No name is in `m` or used twice.
abbrev pub Fresh : List (Bytes × Vector) → List Item → Type 0
Fresh m [] = Unit
Fresh m (i ∷ is) = (lookup i.key m ≡ none) × Fresh (m ++ (empty_entry i ∷ [])) is

assign_scalar-filled :
    (w : Vector) (done : List Scalar) (k : ℕ) (x : Scalar)
    → same_class w.init x ≡ true
    → assign_scalar (filled w done (suc k)) (length done) x ≡ ok (filled w (done ++ (x ∷ [])) k)
unfolding assign_scalar
assign_scalar-filled w done k x same =
    rw
      (
        same,
        lt→ltb (length done) (length (done ++ (w.init ∷ replicate k w.init)))
            (omega (arith, length-append done (w.init ∷ replicate k w.init))),
        set-append,
      )
      (ap (λ zs. ok (record w { values = zs }))
        (sym (append_assoc done (x ∷ []) (replicate k w.init))))

assign_fields-IsColumn :
    (key : Bytes) (w : Vector) (ss ys done : List Scalar)
    → IsColumn key w.init ss ys
    → assign_fields key (length done) ss (filled w done (length ss)) ≡ ok (filled w (done ++ ys) 0)
unfolding assign_fields field_of
assign_fields-IsColumn key w [] [] done h = ap (λ zs. ok (filled w zs 0)) (sym (append-nil done))
assign_fields-IsColumn key w [] (y ∷ ys) done h = absurd h
assign_fields-IsColumn key w (s ∷ ss) [] done h = absurd h
assign_fields-IsColumn key w (s ∷ ss) (y ∷ ys) done ((fs, e, f, same), h) =
    let next : length done + 1 ≡ length (done ++ (y ∷ [])) =
      omega (arith, length-append done (y ∷ [])) in
    rw (
      e,
      f,
      assign_scalar-filled w done (length ss) y same,
      next,
      assign_fields-IsColumn key w ss ys (done ++ (y ∷ [])) h,
      append_assoc done (y ∷ []) ys,
    )

copy_vectors-AreItems :
    (structs : List Scalar) (ds : Children) (is : List Item)
    → AreItems structs ds is
    → copy_vectors structs (map empty_entry is) ≡ ok (map full_entry is)
unfolding copy_vectors
copy_vectors-AreItems structs nil [] h = refl
copy_vectors-AreItems structs nil (i ∷ is) h = absurd h
copy_vectors-AreItems structs (cons d ds) [] h = absurd h
copy_vectors-AreItems structs (cons d ds) (i ∷ is) ((name, new, col), h) = rw (
  resize_new i.empty (length structs) (new_vector-empty d i.empty new),
  assign_fields-IsColumn i.key i.empty structs i.column [] col,
  copy_vectors-AreItems structs ds is h,
  filled_zero i.empty i.column,
)

init_from_structdef-AreItems :
    (structs : List Scalar) (ds : Children) (is : List Item) (m : List (Bytes × Vector))
    → AreItems structs ds is
    → Fresh m is
    → init_from_structdef ds m ≡ ok (m ++ map empty_entry is)
unfolding init_from_structdef
init_from_structdef-AreItems structs nil [] m h fresh = ap ok (sym (append-nil m))
init_from_structdef-AreItems structs nil (i ∷ is) m h fresh = absurd h
init_from_structdef-AreItems structs (cons d ds) [] m h fresh = absurd h
init_from_structdef-AreItems structs (cons d ds) (i ∷ is) m ((name, new, col), h) (f, fresh) = rw (
  new,
  name,
  insert-fresh i.key i.empty m f,
  init_from_structdef-AreItems structs ds is (m ++ (empty_entry i ∷ [])) h fresh,
  append_assoc m (empty_entry i ∷ []) (map empty_entry is),
)

-- A vector of structs becomes a vector for each item of the struct definition, which holds the
-- item's value of every struct, in order; the names of the items must be distinct, and each struct
-- must have each item, with the class that its definition states.
pub vector_struct-AreItems :
    (init : Scalar) (ds : Children) (size : ℕ) (structs : List Scalar) (is : List Item)
    → AreItems structs ds is
    → Fresh [] is
    → vector_struct (record { init = init; definition = structdef ds size; values = structs })
      ≡ ok (record { vectors = map full_entry is; n = length structs })
unfolding vector_struct
vector_struct-AreItems init ds size structs is h fresh =
    rw
      (init_from_structdef-AreItems structs ds is [] h fresh, copy_vectors-AreItems structs ds is h)
