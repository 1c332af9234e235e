-- ===== src/Trace/Codings.antt =====
-- How the children of the header, type, sweep and trace sections are written (src/psfsections.cc,
-- src/psftrace.cc).
use libpsf.Prelude.{
  ℕ, ◌+◌, ◌<◌, ◌≡◌, refl, none, some, List, [], ◌∷◌, map, All, length, length-append, arith,
}
use libpsf.Prelude.Int.{ℤ, pos}
use libpsf.Outcome.{ok}
use libpsf.Buffer.{Bytes}
use libpsf.Buffer.At.{At, At-then}
use libpsf.Buffer.Words.{encode_int, get_int32-encode_int}
use libpsf.Chunk.{deserialize_child}
use libpsf.Property.{Property, ischunk}
use libpsf.Property.RoundTrip.{
  IsProperty, typed, encode_property, encode_all, Ends, property-head,
  property_deserialize-encode_property, length-encode_property,
}
use libpsf.TypeDef.Encode.{encode_def, IsEncodable, length-encode_def_pos}
use libpsf.TypeDef.RoundTrip.{def-head, deserialize-encode_def}
use libpsf.Container.RoundTrip.{ChildrenAt}
use libpsf.Container.Encoded.{Coding}
use libpsf.Trace.{
  Trace, ref, group, header_factory, type_factory, sweep_factory, trace_factory, ref_trace,
  group_trace,
}
use libpsf.Trace.RoundTrip.{
  encode_ref, IsRef, ref-head, ref_deserialize-encode_ref, length-encode_ref, encode_group, IsGroup,
  group-head, group_deserialize-encode_group, length-encode_group_pos,
}

unfoldable pub encode_trace : Trace → Bytes
encode_trace (ref r) = encode_ref r
encode_trace (group g) = encode_group g

abbrev pub IsTrace : Trace → Type 0
IsTrace (ref r) = IsRef r
IsTrace (group g) = IsGroup g

module _ (buf : Bytes) where
  pub type-Coding : Coding type_factory encode_def IsEncodable buf
  unfolding deserialize_child type_factory ischunk
  type-Coding = record {
    reads = λ d p t fit at ends.
        rw (def-head d buf p at, deserialize-encode_def d buf p t fit at ends) refl;
    begins = λ d p at. (pos 16, (def-head d buf p at, refl));
    takes = length-encode_def_pos;
  }

  pub sweep-Coding : Coding sweep_factory encode_ref IsRef buf
  unfolding deserialize_child sweep_factory ischunk
  sweep-Coding = record {
    reads = λ r p t fit at ends.
        rw (ref-head r buf p at, ref_deserialize-encode_ref r buf p t fit at ends) refl;
    begins = λ r p at. (pos 16, (ref-head r buf p at, refl));
    takes = λ r. omega (arith, length-encode_ref r);
  }

  trace-reads :
      (c : Trace) (p : ℕ) (t : ℤ)
      → IsTrace c
      → At buf p (encode_trace c)
      → Ends buf (p + length (encode_trace c)) t
      → deserialize_child trace_factory buf p ≡ ok (some c, length (encode_trace c))
  unfolding deserialize_child trace_factory encode_trace ref_trace group_trace
  trace-reads (ref r) p t fit at ends =
      rw (ref-head r buf p at, ref_deserialize-encode_ref r buf p t fit at ends) refl
  trace-reads (group g) p t fit at ends =
      rw (group-head g buf p at, group_deserialize-encode_group g buf p t fit at ends) refl

  trace-begins : (c : Trace) (p : ℕ) → At buf p (encode_trace c) → (t : ℤ) × Ends buf p t
  unfolding encode_trace ischunk
  trace-begins (ref r) p at = (pos 16, (ref-head r buf p at, refl))
  trace-begins (group g) p at = (pos 17, (group-head g buf p at, refl))

  trace-takes : (c : Trace) → 0 < length (encode_trace c)
  unfolding encode_trace
  trace-takes (ref r) = omega (arith, length-encode_ref r)
  trace-takes (group g) = length-encode_group_pos g

  pub trace-Coding : Coding trace_factory encode_trace IsTrace buf
  trace-Coding = record { reads = trace-reads; begins = trace-begins; takes = trace-takes }

  -- The properties of the header need no chunk behind them.
  pub header-ChildrenAt :
      (props : List Property) (p q : ℕ)
      → All IsProperty props
      → At buf p (encode_all props)
      → p + length (encode_all props) ≡ q
      → ChildrenAt header_factory buf (map typed props) p q
  unfolding deserialize_child header_factory
  header-ChildrenAt [] p q fit at e = omega arith
  header-ChildrenAt (prop ∷ props) p q (f, fit) at e =
      let (first, rest) = At-then buf p (encode_property prop) (encode_all props) _ at refl in
      let (head, chunk) = property-head buf p prop f first in
      let split = length-append (encode_property prop) (encode_all props) in
      (
        length (encode_property prop),
        omega (arith, length-encode_property prop),
        rw (head, chunk, property_deserialize-encode_property buf p prop f first) refl,
        header-ChildrenAt props (p + length (encode_property prop)) q fit rest (omega (arith)),
      )

  -- The end markers of the header and of the sweep section
  pub header-mark :
      (p : ℕ)
      → At buf p (encode_int (pos 1))
      → deserialize_child header_factory buf p ≡ ok (none, 4)
  unfolding deserialize_child header_factory ischunk
  header-mark p at = rw (get_int32-encode_int buf p (pos 1) (omega arith) at) refl

  pub sweep-mark :
      (p : ℕ) → At buf p (encode_int (pos 3)) → deserialize_child sweep_factory buf p ≡ ok (none, 4)
  unfolding deserialize_child sweep_factory
  sweep-mark p at = rw (get_int32-encode_int buf p (pos 3) (omega arith) at) refl
