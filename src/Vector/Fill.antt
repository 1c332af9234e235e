-- ===== src/Vector/Fill.antt =====
-- A vector that is filled from its front: what `resize` and `store_at` make of it.
use libpsf.Prelude.{
  ℕ, zero, suc, ◌-◌, ◌≡◌, refl, sym, ap, List, [], ◌∷◌, ◌++◌, append_assoc, append-nil, length,
  length-append, set, replicate, arith, false, leb, lt→ltb,
}
use libpsf.Prelude.Int.{pos}
use libpsf.Outcome.{ok}
use libpsf.Scalar.{Scalar}
use libpsf.TypeDef.{DataTypeDef, datatypedef}
use libpsf.Vector.{Vector, new_vector, resize, store_at}

-- `w` with the values `done` and the initial value in `k` places behind them
abbrev pub filled : Vector → List Scalar → ℕ → Vector
filled w done k = record w { values = done ++ replicate k w.init }

pub set-append :
    (xs ys : List Scalar) (a b : Scalar) → set (xs ++ (a ∷ ys)) (length xs) b ≡ xs ++ (b ∷ ys)
set-append [] ys a b = refl
set-append (x ∷ xs) ys a b = ap (λ zs. x ∷ zs) (set-append xs ys a b)

leb_zero : (n : ℕ) → leb (suc n) 0 ≡ false
leb_zero n = ground arith

pub resize_new : (w : Vector) (n : ℕ) → w.values ≡ [] → resize w (pos n) ≡ ok (filled w [] n)
unfolding resize
resize_new w zero e = rw e
resize_new w (suc n) e = let z : suc n - 0 ≡ suc n = omega arith in rw (e, leb_zero n, z)

pub store_at-filled :
    (w : Vector) (done : List Scalar) (k : ℕ) (x : Scalar)
    → store_at (filled w done (suc k)) (length done) x ≡ ok (filled w (done ++ (x ∷ [])) k)
unfolding store_at
store_at-filled w done k x =
    rw
      (
        lt→ltb (length done) (length (done ++ (w.init ∷ replicate k w.init)))
            (omega (arith, length-append done (w.init ∷ replicate k w.init))),
        set-append,
      )
      (ap (λ zs. ok (record w { values = zs }))
        (sym (append_assoc done (x ∷ []) (replicate k w.init))))

pub filled_zero : (w : Vector) (done : List Scalar) → filled w done 0 ≡ record w { values = done }
filled_zero w done = ap (λ zs. record w { values = zs }) (append-nil done)

pub new_vector-empty : (d : DataTypeDef) (w : Vector) → new_vector d ≡ ok w → w.values ≡ []
new_vector-empty (datatypedef id name typeid props sd size) w e = unfold new_vector in ground arith
