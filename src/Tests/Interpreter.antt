-- ===== src/Tests/Interpreter.antt =====
-- An interpreter whose objects are data, for the Python bindings.
use libpsf.Prelude.{ℕ, ◌≡◌, refl, Option, none, some, List, [], ◌∷◌, if◌then◌else◌}
use libpsf.Prelude.Int.{ℤ}
use libpsf.Prelude.Assoc.{◌==◌, bytes_eq}
use libpsf.Buffer.{Bytes}
use libpsf.Python.{Interpreter}
use libpsf.Python.Dicts.{DictLaws}

mutual
  pub data PyValue : Type 0 where
    py_null : PyValue
    py_float : ℕ → PyValue
    py_int : ℤ → PyValue
    py_string : Bytes → PyValue
    py_values : PyValues → PyValue
    py_dict : PyItems → PyValue
    py_doubles : List ℕ → PyValue
    py_cdoubles : List (ℕ × ℕ) → PyValue

  pub data PyValues : Type 0 where
    no_values : PyValues
    value : PyValue → PyValues → PyValues

  pub data PyItems : Type 0 where
    no_items : PyItems
    item : Bytes → PyValue → PyItems → PyItems

abbrev pub values_of : List PyValue → PyValues
values_of [] = no_values
values_of (x ∷ xs) = value x (values_of xs)

-- The item that was set last comes first.
abbrev set_item : PyValue → PyValue → PyValue → PyValue
set_item (py_dict items) (py_string key) v = py_dict (item key v items)
set_item d _ v = d

abbrev find_in : PyItems → Bytes → Option PyValue
find_in no_items wanted = none
find_in (item key v items) wanted = if key == wanted then some v else find_in items wanted

abbrev find_item : PyValue → Bytes → Option PyValue
find_item (py_dict items) wanted = find_in items wanted
find_item _ wanted = none

abbrev pub interpreter : Interpreter
interpreter = record {
  Object = PyValue;
  py_none = py_null;
  float_from_double = py_float;
  int_from_long = py_int;
  string_from_string = py_string;
  list_of = λ xs. py_values (values_of xs);
  dict_new = py_dict no_items;
  dict_set_item = set_item;
  double_array = py_doubles;
  cdouble_array = py_cdoubles;
  object_array = λ xs. py_values (values_of xs);
}

abbrev IsPyDict : PyValue → Type 0
IsPyDict (py_dict items) = Unit
IsPyDict _ = ⊥

pub set_item-IsPyDict : (d k v : PyValue) → IsPyDict d → IsPyDict (set_item d k v)
set_item-IsPyDict (py_dict items) (py_string key) v h = tt
set_item-IsPyDict (py_dict items) py_null v h = tt
set_item-IsPyDict (py_dict items) (py_float b) v h = tt
set_item-IsPyDict (py_dict items) (py_int b) v h = tt
set_item-IsPyDict (py_dict items) (py_values b) v h = tt
set_item-IsPyDict (py_dict items) (py_dict b) v h = tt
set_item-IsPyDict (py_dict items) (py_doubles b) v h = tt
set_item-IsPyDict (py_dict items) (py_cdoubles b) v h = tt
set_item-IsPyDict _ k v h = absurd h

pub find_item-set_item :
    (d v : PyValue) (k wanted : Bytes)
    → IsPyDict d
    → find_item (set_item d (py_string k) v) wanted
      ≡ (if k == wanted then some v else find_item d wanted)
find_item-set_item (py_dict items) v k wanted h = refl
find_item-set_item _ v k wanted h = absurd h

abbrev pub dict_laws : DictLaws interpreter
dict_laws = record {
  IsDict = IsPyDict;
  find_item = find_item;
  new_IsDict = tt;
  set_IsDict = set_item-IsPyDict;
  find_new = λ k. refl;
  find_set = find_item-set_item;
}
