-- ===== src/Models/Dump.antt =====
-- `as_dict` of src/database/psql/models/base/core.py. An object's `__dict__` is a tree: the session
-- does not load an object below itself.
use fastapi_claude_template.Prelude.{
  String, ◌≡◌, refl, Bool, true, false, not, ◌&&◌, List, [], ◌∷◌, if◌then◌else◌, Bool-cases, inl,
  inr,
}
use text.Mathlib.Text.{starts_with}

-- A value is a column's, another object, or a list or a tuple of values and objects; a list in a list
-- is a column's value.
mutual
  pub data Attribute : Type 0 where
    column : String → Attribute
    model : Fields → Attribute
    items : Elements → Attribute

  pub data Fields : Type 0 where
    none_left : Fields
    attribute : String → Attribute → Fields → Fields

  pub data Elements : Type 0 where
    nil : Elements
    item : String → Elements → Elements
    member : Fields → Elements → Elements

-- What it makes: values, dictionaries and lists
mutual
  pub data Dumped : Type 0 where
    scalar : String → Dumped
    dict : Entries → Dumped
    array : Dumps → Dumped

  pub data Entries : Type 0 where
    end : Entries
    entry : String → Dumped → Entries → Entries

  pub data Dumps : Type 0 where
    empty : Dumps
    next : Dumped → Dumps → Dumps

-- `attr.startswith("_")`
abbrev pub is_private : String → Bool
is_private attr = starts_with attr "_"

abbrev pub entry_if : Bool → String → Dumped → Entries → Entries
entry_if true attr d es = es
entry_if false attr d es = entry attr d es

unfoldable mutual
  pub dump : Attribute → Dumped
  dump (column v) = scalar v
  dump (model fs) = dict (as_dict fs)
  dump (items xs) = array (dump_items xs)

  pub as_dict : Fields → Entries
  as_dict none_left = end
  as_dict (attribute attr value fs) = entry_if (is_private attr) attr (dump value) (as_dict fs)

  pub dump_items : Elements → Dumps
  dump_items nil = empty
  dump_items (item v xs) = next (scalar v) (dump_items xs)
  dump_items (member fs xs) = next (dict (as_dict fs)) (dump_items xs)

-- Whether no key at any depth is private
mutual
  pub is_public : Dumped → Bool
  is_public (scalar v) = true
  is_public (dict es) = is_public_dict es
  is_public (array ds) = is_public_array ds

  pub is_public_dict : Entries → Bool
  is_public_dict end = true
  is_public_dict (entry k d es) = not (is_private k) && (is_public d && is_public_dict es)

  pub is_public_array : Dumps → Bool
  is_public_array empty = true
  is_public_array (next d ds) = is_public d && is_public_array ds

abbrev pub keys : Entries → List String
keys end = []
keys (entry k d es) = k ∷ keys es

-- The names of the attributes that are not private, in their order
abbrev pub public_names : Fields → List String
public_names none_left = []
public_names (attribute attr value fs) =
    let rest = public_names fs in if is_private attr then rest else attr ∷ rest

keys-entry_if :
    (b : Bool) (attr : String) (d : Dumped) (es : Entries)
    → keys (entry_if b attr d es) ≡ (if b then keys es else attr ∷ keys es)
keys-entry_if true attr d es = refl
keys-entry_if false attr d es = refl

pub keys-as_dict : (fs : Fields) → keys (as_dict fs) ≡ public_names fs
unfolding as_dict
keys-as_dict none_left = refl
keys-as_dict (attribute attr value fs) =
    rw (keys-entry_if (is_private attr) attr (dump value) (as_dict fs), keys-as_dict fs) refl

is_public_dict-entry_if :
    (attr : String) (d : Dumped) (es : Entries)
    → is_public d ≡ true
    → is_public_dict es ≡ true
    → is_public_dict (entry_if (is_private attr) attr d es) ≡ true
unfolding is_public_dict
is_public_dict-entry_if attr d es h k = elim (Bool-cases (is_private attr)) [
  | inl e ↦ rw e k
  | inr e ↦ rw (e, h, k, e) refl
]

mutual
  unfolding dump as_dict dump_items is_public is_public_dict is_public_array

  public_dump : (a : Attribute) → is_public (dump a) ≡ true
  public_dump (column v) = refl
  public_dump (model fs) = public_as_dict fs
  public_dump (items xs) = public_dump_items xs

  public_as_dict : (fs : Fields) → is_public_dict (as_dict fs) ≡ true
  public_as_dict none_left = refl
  public_as_dict (attribute attr value fs) =
      is_public_dict-entry_if attr (dump value) (as_dict fs) (public_dump value) (public_as_dict fs)

  public_dump_items : (xs : Elements) → is_public_array (dump_items xs) ≡ true
  public_dump_items nil = refl
  public_dump_items (item v xs) = public_dump_items xs
  public_dump_items (member fs xs) = rw (public_as_dict fs, public_dump_items xs) refl

-- The dump of an object has the attributes that are not private, in their order, and no private name
-- at any depth, such as SQLAlchemy's own state.
pub as_dict_lem :
    (fs : Fields) → (keys (as_dict fs) ≡ public_names fs) × (is_public_dict (as_dict fs) ≡ true)
as_dict_lem fs = (keys-as_dict fs, public_as_dict fs)
