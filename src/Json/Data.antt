-- ===== src/Json/Data.antt =====
-- The values that `json.loads` yields and pydantic's `model_dump(mode="json")` returns.
use observable_agent_workflo.Prelude.{
  ℕ, suc, ◌*◌, String, ◌==◌, Bool, true, false, ◌&&◌, Option, none, some, List, [], ◌∷◌, nat_eq,
  if◌then◌else◌, str_mem,
}
use observable_agent_workflo.Prelude.Int.{ℤ, pos, pos_part, neg_part}

-- A float with its `repr`. A finite one equals the fraction `num / den` (`as_integer_ratio`).
pub record Float : Type 0 where
  pub finite : Bool
  pub num : ℤ
  pub den : ℕ
  pub repr : String

mutual
  pub data Value : Type 0 where
    null : Value
    boolean : Bool → Value
    int : ℤ → Value
    float : Float → Value
    str : String → Value
    arr : Items → Value
    obj : Fields → Value

  -- a dict with string keys, in insertion order
  pub data Fields : Type 0 where
    end : Fields
    field : String → Value → Fields → Fields

  pub data Items : Type 0 where
    nil : Items
    cons : Value → Items → Items

-- `f.get(k)`, with `none` where the key is missing
abbrev pub get : String → Fields → Option Value
get k end = none
get k (field j v f) = if j == k then some v else get k f

-- `f[k] = v`
abbrev pub put : String → Value → Fields → Fields
put k v end = field k v end
put k v (field j w f) = if j == k then field j v f else field j w (put k v f)

abbrev pub keys : Fields → List String
keys end = []
keys (field k v f) = k ∷ keys f

abbrev pub contains : String → Fields → Bool
contains k f = str_mem k (keys f)

abbrev pub size : Fields → ℕ
size end = 0
size (field k v f) = suc (size f)

-- a list of texts as a JSON array, and a dict of texts as an object
abbrev pub str_items : List String → Items
str_items [] = nil
str_items (s ∷ ss) = cons (str s) (str_items ss)

abbrev pub strs : List String → Value
strs ss = arr (str_items ss)

-- `None` or the text
abbrev pub opt_str : Option String → Value
opt_str none = null
opt_str (some s) = str s

abbrev bool_int : Bool → ℤ
bool_int true = pos 1
bool_int false = pos 0

abbrev int_eq : ℤ → ℤ → Bool
int_eq a b = nat_eq (pos_part a) (pos_part b) && nat_eq (neg_part a) (neg_part b)

abbrev scaled_eq : ℤ → ℕ → ℤ → ℕ → Bool
scaled_eq a c b d =
    nat_eq (pos_part a * d) (pos_part b * c) && nat_eq (neg_part a * d) (neg_part b * c)

-- Numbers of Python compare across `bool`, `int` and `float`. A NaN or an infinity is compared by
-- its sign and kind only: two non-finite floats are taken as unequal, which is right of NaN.
abbrev number_eq : Value → Value → Bool
number_eq (boolean a) (boolean b) = int_eq (bool_int a) (bool_int b)
number_eq (boolean a) (int b) = int_eq (bool_int a) b
number_eq (boolean a) (float b) = b.finite && scaled_eq (bool_int a) 1 b.num b.den
number_eq (int a) (boolean b) = int_eq a (bool_int b)
number_eq (int a) (int b) = int_eq a b
number_eq (int a) (float b) = b.finite && scaled_eq a 1 b.num b.den
number_eq (float a) (boolean b) = a.finite && scaled_eq a.num a.den (bool_int b) 1
number_eq (float a) (int b) = a.finite && scaled_eq a.num a.den b 1
number_eq (float a) (float b) = a.finite && b.finite && scaled_eq a.num a.den b.num b.den
number_eq _ _ = false

-- `a == b`: dicts compare as mappings, whatever their order.
unfoldable mutual
  pub value_eq : Value → Value → Bool
  value_eq null null = true
  value_eq (str a) (str b) = a == b
  value_eq (arr a) (arr b) = items_eq a b
  value_eq (obj a) (obj b) = nat_eq (size a) (size b) && fields_le a b
  value_eq a b = number_eq a b

  pub items_eq : Items → Items → Bool
  items_eq nil nil = true
  items_eq nil (cons b bs) = false
  items_eq (cons a as') nil = false
  items_eq (cons a as') (cons b bs) = value_eq a b && items_eq as' bs

  -- every key of the first is in the second, with an equal value
  pub fields_le : Fields → Fields → Bool
  fields_le end g = true
  fields_le (field k v f) g =
      elim (get k g) [ none ↦ false | some w ↦ value_eq v w ] && fields_le f g

-- a dict literal
abbrev pub dict : List (String × Value) → Fields
dict [] = end
dict ((k, v) ∷ kvs) = field k v (dict kvs)

abbrev pub is_list : Value → Bool
is_list (arr xs) = true
is_list _ = false

abbrev pub is_dict : Value → Bool
is_dict (obj f) = true
is_dict _ = false

abbrev pub is_str : Value → Bool
is_str (str s) = true
is_str _ = false

-- the texts of a list all of whose items are texts
abbrev pub as_strs : Items → Option (List String)
as_strs nil = some []
as_strs (cons (str s) xs) = elim (as_strs xs) [ none ↦ none | some ss ↦ some (s ∷ ss) ]
as_strs (cons _ xs) = none
