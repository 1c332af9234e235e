-- ===== src/Trace/Lookup.antt =====
-- The lookups of TraceSection: get_trace_by_name, get_traceindex_by_name and get_trace_by_index.
use libpsf.Prelude.{
  ℕ, suc, ◌+◌, ◌≡◌, refl, sym, ap, ◌∙◌, Option, none, some, List, [], ◌∷◌, arith, get_elem?,
  Option-cases, inl, inr,
}
use libpsf.Prelude.Int.{ℤ, pos, negsuc}
use libpsf.Prelude.Assoc.{int_eq, bytes_eq, lookup}
use libpsf.Outcome.{
  Result, ok, err, Error, not_found, out_of_range, bad_cast, or_throw, ◌>>=◌, >>=-ok, Yields, holds,
  throws, Yields-bind, Yields-or_throw,
}
use libpsf.Trace.Total.{Any}
use libpsf.Buffer.{Bytes}
use libpsf.Container.{get_child_by_name, get_child_index}
use libpsf.Container.Index.{last_with, IsIndexed}
use libpsf.Container.Lookup.{get_child_by_name-last_with}
use libpsf.Trace.{
  DataTypeRef, GroupDef, Trace, ref, group, trace_id, trace_name, TraceSection, group_child,
  group_child_index, as_ref, as_group, at_place, search_groups, catch_not_found, group_places,
  get_trace_by_name, get_traceindex_by_name, get_trace_by_index,
}

-- The first group of a section, with its place
first_group : ℕ → List Trace → Option (ℕ × GroupDef)
first_group i [] = none
first_group i (ref r ∷ ts) = first_group (i + 1) ts
first_group i (group g ∷ ts) = some (i, g)

-- The trace that a name stands for: the section's last child of that name, which must be a trace,
-- and where there is none the child of the first group.
unfoldable pub trace_named : Bytes → List Trace → Result DataTypeRef
unfolding first_group
trace_named name ts = elim (last_with trace_name name none ts) [
  | some t ↦ elim t [ ref r ↦ ok r | group g ↦ err bad_cast ]
  | none ↦ elim (first_group 0 ts) [ none ↦ err not_found | some ig ↦ group_child ig.1 name ]
]

search_groups-first_group :
    (name : Bytes) (i : ℕ) (ts : List Trace)
    → search_groups name ts
      ≡ elim (first_group i ts) [ none ↦ err not_found | some ig ↦ group_child ig.1 name ]
unfolding search_groups first_group
search_groups-first_group name i [] = refl
search_groups-first_group name i (ref r ∷ ts) = search_groups-first_group name (i + 1) ts
search_groups-first_group name i (group g ∷ ts) = refl

-- A name finds the section's last child of that name, a bad cast if that is a group; where no child
-- has the name only the first group is searched, whatever the other groups hold.
pub get_trace_by_name-trace_named :
    (s : TraceSection) (name : Bytes)
    → IsIndexed trace_id trace_name s
    → get_trace_by_name s name ≡ trace_named name s.children
unfolding get_trace_by_name trace_named as_ref
get_trace_by_name-trace_named s name ix =
    rw (get_child_by_name-last_with trace_id trace_name s ix name)
      (by_child (last_with trace_name name none s.children))
  where
    by_child :
        (o : Option Trace)
        → catch_not_found (do t ← or_throw o not_found; as_ref t) (search_groups name s.children)
          ≡ elim o [
            | some t ↦ elim t [ ref r ↦ ok r | group g ↦ err bad_cast ]
            | none ↦ elim (first_group 0 s.children) [
              | none ↦ err not_found
              | some ig ↦ group_child ig.1 name
            ]
          ]
    by_child none = search_groups-first_group name 0 s.children
    by_child (some (ref r)) = refl
    by_child (some (group g)) = refl

first_of : ℤ → Result (List ℤ) → ℤ
first_of i (ok (x ∷ xs)) = x
first_of i _ = i

rest_of : List ℤ → Result (List ℤ) → List ℤ
rest_of is (ok (x ∷ xs)) = xs
rest_of is _ = is

-- The first group, where the places of a name in the groups are known
record InFirst (name : Bytes) (k : ℕ) (ts : List Trace) (i : ℤ) (is : List ℤ) : Type 0 where
  m : ℕ
  g : GroupDef
  j : ℕ
  rest : List ℤ
  place : i ≡ pos (k + m)
  there : get_elem? ts m ≡ some (group g)
  index : is ≡ pos j ∷ rest
  child : group_child_index g name ≡ ok j
  search : search_groups name ts ≡ group_child g name

group_places-InFirst :
    (name : Bytes) (k : ℕ) (ts : List Trace) (i : ℤ) (is : List ℤ)
    → group_places name k ts ≡ ok (i ∷ is)
    → InFirst name k ts i is
unfolding group_places search_groups first_of rest_of
group_places-InFirst name k [] i is e = absurd (cc)
group_places-InFirst name k (ref r ∷ ts) i is e =
    let f = group_places-InFirst name (k + 1) ts i is e in
    record {
      m = suc f.m;
      g = f.g;
      j = f.j;
      rest = f.rest;
      place = f.place ∙ ap pos (omega arith);
      there = f.there;
      index = f.index;
      child = f.child;
      search = f.search;
    }
group_places-InFirst name k (group g ∷ ts) i is e =
    let (j, c, e') = >>=-ok (group_child_index g name) _ e in
    let (rest, c', e'') = >>=-ok (group_places name (k + 1) ts) _ e' in
    record {
      m = 0;
      g = g;
      j = j;
      rest = rest;
      place = sym (ap (first_of i) e'') ∙ ap pos (omega arith);
      there = refl;
      index = sym (ap (rest_of is) e'');
      child = c;
      search = refl;
    }

own_trace :
    (o : Option Trace) (handler : Result DataTypeRef)
    → (do t ← or_throw o out_of_range; as_ref t)
      ≡ catch_not_found (do t ← or_throw o out_of_range; as_ref t) handler
unfolding as_ref
own_trace none handler = refl
own_trace (some (ref r)) handler = refl
own_trace (some (group g)) handler = refl

module _ (s : TraceSection) (name : Bytes) (i : ℤ) (is : List ℤ) where
  index_of :
      (o : Option ℕ)
      → lookup name s.namemap ≡ o
      → get_child_index s name ≡ elim o [ none ↦ negsuc 0 | some k ↦ pos k ]
  unfolding get_child_index
  index_of o e = ap (λ o. elim o [ none ↦ negsuc 0 | some k ↦ pos k ]) e

  traceindex_some :
      (k : ℕ) → get_child_index s name ≡ pos k → get_traceindex_by_name s name ≡ ok (pos k ∷ [])
  unfolding get_traceindex_by_name
  traceindex_some k e = rw e

  traceindex_none :
      get_child_index s name ≡ negsuc 0
      → get_traceindex_by_name s name ≡ group_places name 0 s.children
  unfolding get_traceindex_by_name
  traceindex_none e = rw e

  in_section :
      get_traceindex_by_name s name ≡ ok (i ∷ is)
      → (k : ℕ) → lookup name s.namemap ≡ some k
      → get_trace_by_index s (i ∷ is) ≡ get_trace_by_name s name
  unfolding get_trace_by_index get_trace_by_name get_child_by_name at_place first_of rest_of
  in_section e k found =
      let e' : ok (pos k ∷ []) ≡ ok (i ∷ is) =
        sym (traceindex_some k (index_of (some k) found)) ∙ e in
      rw (← ap (rest_of is) e', ← ap (first_of i) e', found) (own_trace (get_elem? s.children k) _)

  in_first :
      (m j : ℕ) (g : GroupDef) (rest : List ℤ)
      → lookup name s.namemap ≡ none
      → get_elem? s.children m ≡ some (group g)
      → group_child_index g name ≡ ok j
      → search_groups name s.children ≡ group_child g name
      → get_trace_by_index s (pos m ∷ (pos j ∷ rest)) ≡ get_trace_by_name s name
  unfolding get_trace_by_index get_trace_by_name get_child_by_name at_place as_group group_child
  in_first m j g rest missing there child search = rw (missing, there, search, child)

  in_group :
      get_traceindex_by_name s name ≡ ok (i ∷ is)
      → lookup name s.namemap ≡ none
      → get_trace_by_index s (i ∷ is) ≡ get_trace_by_name s name
  in_group e missing =
      let f =
        group_places-InFirst name 0 s.children i is
          (sym (traceindex_none (index_of none missing)) ∙ e) in
      let place : i ≡ pos f.m = f.place ∙ ap pos (omega arith) in
      ap (λ k. get_trace_by_index s (k ∷ is)) place
      ∙ ap (λ ks. get_trace_by_index s (pos f.m ∷ ks)) f.index
      ∙ in_first f.m f.j f.g f.rest missing f.there f.child f.search

-- The index that a name has stands for the trace of that name: where get_traceindex_by_name gives
-- an index, get_trace_by_index gives for it what get_trace_by_name gives for the name.
pub get_trace_by_index-get_traceindex_by_name :
    (s : TraceSection) (name : Bytes) (i : ℤ) (is : List ℤ)
    → get_traceindex_by_name s name ≡ ok (i ∷ is)
    → get_trace_by_index s (i ∷ is) ≡ get_trace_by_name s name
get_trace_by_index-get_traceindex_by_name s name i is e =
    elim (Option-cases (lookup name s.namemap)) [
      | inl none_ ↦ in_group s name i is e none_
      | inr (k, some_) ↦ in_section s name i is e k some_
    ]

group_child-Yields : (g : GroupDef) (name : Bytes) → Yields Any (group_child g name)
unfolding group_child group_child_index
group_child-Yields g name =
    Yields-bind {P = Any} (Yields-or_throw (lookup name g.namemap) not_found (λ _ _. tt))
      λ i _. Yields-or_throw (get_elem? g.children i) out_of_range (λ _ _. tt)

search_groups-Yields : (name : Bytes) (ts : List Trace) → Yields Any (search_groups name ts)
unfolding search_groups
search_groups-Yields name [] = throws not_found
search_groups-Yields name (ref r ∷ ts) = search_groups-Yields name ts
search_groups-Yields name (group g ∷ ts) = group_child-Yields g name

catch-Yields :
    {r h : Result DataTypeRef} → Yields Any r → Yields Any h → Yields Any (catch_not_found r h)
catch-Yields (holds a) h = holds tt
catch-Yields (throws Error.not_found) h = h
catch-Yields (throws e) h = throws e

pub get_trace_by_name-Yields :
    (s : TraceSection) (name : Bytes) → Yields Any (get_trace_by_name s name)
unfolding get_trace_by_name get_child_by_name as_ref
get_trace_by_name-Yields s name =
    catch-Yields
      (Yields-bind {P = Any}
        (Yields-bind {P = Any} (Yields-or_throw (lookup name s.namemap) not_found (λ _ _. tt))
          λ i _. Yields-or_throw (get_elem? s.children i) out_of_range (λ _ _. tt))
        λ t _. as_ref-Yields t)
      (search_groups-Yields name s.children)
  where
    as_ref-Yields : (t : Trace) → Yields Any (as_ref t)
    as_ref-Yields (ref r) = holds tt
    as_ref-Yields (group g) = throws bad_cast
