-- ===== src/Objects.antt =====
-- The Python objects that the adapters of src/rastir/adapters and the decorators of
-- src/rastir/decorators.py inspect: values of the built-in types, and instances of a class in a module
-- with their attributes. Objects are finite trees. An attribute that the code expects to hold a
-- text or a whole number, and that holds something else, counts as None.
use rastir.Base.{
  ℕ, suc, String, Bool, true, false, not, ◌||◌, Option, none, some, List, [], ◌∷◌, str_eq, ◌==◌,
  if◌then◌else◌,
}
use rastir.Text.{codes, is_prefix, occurs}

mutual
  pub data Object : Type 0 where
    null : Object
    boolean : Bool → Object
    number : ℕ → Object
    string : String → Object
    sequence : Items → Object
    dictionary : Fields → Object
    instance_of : String → String → Fields → Object

  pub data Items : Type 0 where
    no_items : Items
    item : Object → Items → Items

  pub data Fields : Type 0 where
    no_fields : Fields
    field : String → Object → Fields → Fields

-- `type(x).__name__`
abbrev pub class_name : Object → String
class_name null = "NoneType"
class_name (boolean b) = "bool"
class_name (number n) = "int"
class_name (string s) = "str"
class_name (sequence l) = "list"
class_name (dictionary d) = "dict"
class_name (instance_of name module_name attrs) = name

-- `type(x).__module__`
abbrev pub module_of : Object → String
module_of (instance_of name module_name attrs) = module_name
module_of x = "builtins"

-- `d.get(name)` on fields, with `none` for a name that is missing
unfoldable pub find_field : String → Fields → Option Object
find_field name no_fields = none
find_field name (field k x rest) =
    let later = find_field name rest in if str_eq k name then some x else later

abbrev pub or_null : Option Object → Object
or_null none = null
or_null (some x) = x

-- the attribute, or `none` for one that is missing
abbrev pub attribute_of : Object → String → Option Object
attribute_of (instance_of name module_name attrs) key = find_field key attrs
attribute_of x key = none

-- `hasattr(x, name)`
unfoldable pub hasattr : Object → String → Bool
unfolding find_field
hasattr x name = elim (attribute_of x name) [ none ↦ false | some y ↦ true ]

-- `getattr(x, name, None)`
unfoldable pub getattr : Object → String → Object
unfolding find_field
getattr x name = or_null (attribute_of x name)

-- `x.get(name)` for a dictionary
unfoldable pub get_key : Object → String → Object
unfolding find_field
get_key (dictionary fields) name = or_null (find_field name fields)
get_key x name = null

abbrev pub is_none : Object → Bool
is_none null = true
is_none x = false

abbrev pub text_of : Object → Option String
text_of (string s) = some s
text_of x = none

abbrev pub number_of : Object → Option ℕ
number_of (number n) = some n
number_of x = none

-- Python's truth of an object
abbrev pub is_true : Object → Bool
is_true null = false
is_true (boolean b) = b
is_true (number n) = not (n == 0)
is_true (string s) = not (str_eq s "")
is_true (sequence no_items) = false
is_true (sequence (item x rest)) = true
is_true (dictionary no_fields) = false
is_true (dictionary (field k x rest)) = true
is_true (instance_of name module_name attrs) = true

-- the first element of a list that is not empty
abbrev pub first_item : Object → Option Object
first_item (sequence (item x rest)) = some x
first_item x = none

unfoldable pub item_count : Items → ℕ
item_count no_items = 0
item_count (item x rest) = suc (item_count rest)

-- `part in s`, and `s.startswith(part)`
unfoldable pub contains : String → String → Bool
contains part s = occurs (codes part) (codes s)

unfoldable pub starts_with : String → String → Bool
starts_with part s = is_prefix (codes part) (codes s)

-- `s in names`, and `any(f(name) for name in names)`
unfoldable pub one_of_names : List String → String → Bool
one_of_names [] s = false
one_of_names (name ∷ names) s = str_eq name s || one_of_names names s

unfoldable pub any_name : (String → Bool) → List String → Bool
any_name test [] = false
any_name test (name ∷ names) = test name || any_name test names

unfoldable pub any_object : (Object → Bool) → List Object → Bool
any_object test [] = false
any_object test (x ∷ l) = test x || any_object test l
