-- ===== src/Tests/Layouts.antt =====
-- The layout of a point, the lookups of a trace section, and a vector of structs.
use libpsf.Prelude.{ℕ, ◌≡◌, refl, some, none, List, [], ◌∷◌, map, arith}
use libpsf.Prelude.Int.{pos}
use libpsf.Prelude.Assoc.{lookup, insert, int_eq, bytes_eq}
use libpsf.Outcome.{ok, not_found, or_throw}
use libpsf.Buffer.{Bytes, codes}
use libpsf.Scalar.{Scalar, double, int32, struct, no_fields, field, find_field}
use libpsf.Property.{empty_block, append_prop, find}
use libpsf.TypeDef
use libpsf.TypeDef.{DataTypeDef, datatypedef, null, structdef, Children, nil, cons}
use libpsf.Container.{make_indexed, get_child_index, get_child_by_name, get_child_by_id}
use libpsf.Container.Index.{make_indexed-IsIndexed, IsIndexed, last_with}
use libpsf.Container.Lookup.{get_child_by_name-last_with}
use libpsf.Trace.{
  DataTypeRef, GroupDef, Trace, ref, group, trace_id, trace_name, TraceSection, TypeSection,
  get_datatype, get_trace_by_name, get_traceindex_by_name, get_trace_by_index, group_child_index,
}
use libpsf.Trace.Lookup.{
  trace_named, get_trace_by_name-trace_named, get_trace_by_index-get_traceindex_by_name,
}
use libpsf.Vector.{new_vector, vector_struct}
use libpsf.Vector.Transpose.{vector_struct-AreItems, Item, AreItems, Fresh, full_entry}
use libpsf.Sweep.{plain_layout, is_sweep_key}
use libpsf.Sweep.Offsets.{
  plain_layout-AreParts, Part, sweep, value, values, AreParts, layout_at, insert_parts,
}
use libpsf.Samples.{text_prop}

abbrev keyed : ℕ → Bytes → DataTypeDef
keyed id key =
    datatypedef (pos id) (codes "V") (pos 11)
      (append_prop empty_block (text_prop (codes "key") key)) null 8

abbrev types : TypeSection
types =
    make_indexed TypeDef.get_id TypeDef.get_name
      (keyed 1 (codes "node") ∷ (keyed 2 (codes "sweep") ∷ []))

abbrev trace : ℕ → Bytes → ℕ → DataTypeRef
trace id name typeid = record {
  id = pos id;
  name = name;
  datatypeid = pos typeid;
  properties = empty_block;
}

abbrev pair : GroupDef
pair = record {
  id = pos 7;
  name = codes "group";
  nchildren = pos 2;
  children = trace 8 (codes "c") 1 ∷ (trace 9 (codes "d") 1 ∷ []);
  indexmap = (pos 8, 0) ∷ ((pos 9, 1) ∷ []);
  namemap = (codes "c", 0) ∷ ((codes "d", 1) ∷ []);
}

abbrev children : List Trace
children = ref (trace 5 (codes "b") 1) ∷ (ref (trace 6 (codes "time") 2) ∷ (group pair ∷ []))

abbrev part_list : List Part
part_list = value (pos 5) 8 ∷ (sweep ∷ (values ((pos 8, 8) ∷ ((pos 9, 8) ∷ [])) ∷ []))

abbrev section : TraceSection
section = make_indexed trace_id trace_name children

parts : AreParts (some types) children part_list
unfolding get_datatype get_child_by_id make_indexed lookup insert find append_prop is_sweep_key
parts = (
  (refl, (keyed 1 (codes "node"), refl, (_, refl, refl), refl)),
  (
    (keyed 2 (codes "sweep"), refl, (_, refl, refl)),
    (
      (
        (refl, (keyed 1 (codes "node"), refl, refl)),
        ((refl, (keyed 1 (codes "node"), refl, refl)), tt),
      ),
      tt,
    ),
  ),
)

plain_layout-AreParts_example :
    plain_layout (some types) children (layout_at [] 0)
    ≡ ok (layout_at (insert_parts 0 part_list []) 40)
plain_layout-AreParts_example =
    plain_layout-AreParts (some types) children part_list [] 0 parts (omega arith)

indexed : IsIndexed trace_id trace_name section
indexed = make_indexed-IsIndexed trace_id trace_name children

make_indexed-IsIndexed_example :
    IsIndexed trace_id trace_name (make_indexed trace_id trace_name children)
make_indexed-IsIndexed_example = make_indexed-IsIndexed trace_id trace_name children

get_child_by_name-last_with_example :
    get_child_by_name section (codes "time")
    ≡ or_throw (last_with trace_name (codes "time") none section.children) not_found
get_child_by_name-last_with_example =
    get_child_by_name-last_with trace_id trace_name section indexed (codes "time")

get_trace_by_name-trace_named_example :
    get_trace_by_name section (codes "d") ≡ trace_named (codes "d") section.children
get_trace_by_name-trace_named_example = get_trace_by_name-trace_named section (codes "d") indexed

index_of_d : get_traceindex_by_name section (codes "d") ≡ ok (pos 2 ∷ (pos 1 ∷ []))
unfolding get_traceindex_by_name make_indexed lookup insert group_child_index get_child_index
index_of_d = refl

get_trace_by_index-get_traceindex_by_name_example :
    get_trace_by_index section (pos 2 ∷ (pos 1 ∷ [])) ≡ get_trace_by_name section (codes "d")
get_trace_by_index-get_traceindex_by_name_example =
    get_trace_by_index-get_traceindex_by_name section (codes "d") (pos 2) (pos 1 ∷ []) index_of_d

abbrev items : Children
items =
    cons (datatypedef (pos 3) (codes "x") (pos 11) empty_block null 8)
      (cons (datatypedef (pos 4) (codes "n") (pos 5) empty_block null 4) nil)

abbrev row : ℕ → ℕ → Scalar
row x n = struct (field (codes "x") (double x) (field (codes "n") (int32 (pos n)) no_fields))

abbrev rows : List Scalar
rows = row 10 1 ∷ (row 20 2 ∷ [])

abbrev columns : List Item
columns =
    record {
      key = codes "x";
      empty = record { init = double 0; definition = null; values = [] };
      column = double 10 ∷ (double 20 ∷ []);
    }
    ∷ (record {
      key = codes "n";
      empty = record { init = int32 (pos 0); definition = null; values = [] };
      column = int32 (pos 1) ∷ (int32 (pos 2) ∷ []);
    }
        ∷ [])

are_items : AreItems rows items columns
unfolding new_vector find_field
are_items = (
  (refl, refl, ((_, refl, refl, refl), ((_, refl, refl, refl), tt))),
  ((refl, refl, ((_, refl, refl, refl), ((_, refl, refl, refl), tt))), tt),
)

fresh : Fresh [] columns
unfolding lookup
fresh = (refl, (refl, tt))

vector_struct-AreItems_example :
    vector_struct
      (record { init = struct no_fields; definition = structdef items 12; values = rows })
    ≡ ok (record { vectors = map full_entry columns; n = 2 })
vector_struct-AreItems_example =
    vector_struct-AreItems (struct no_fields) items 12 rows columns are_items fresh
