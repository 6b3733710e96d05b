-- ===== src/Json/Values.antt =====
-- The values themselves, and Python's operations on them that the code uses.
use text.Mathlib.Text.{find?}
use native.Mathlib.Decide.{ℕ_discrete}
use aurelian_autonomous_ente.Prelude.{
  String-discrete, ℕ, String, Bool, true, false, not, ◌||◌, Option, none, some, List, [], ◌∷◌, ◌==◌,
  eqb, ◌^◌, if◌then◌else◌, get_or,
}

mutual
  pub data Value : Type 0 where
    null : Value
    bool : Bool → Value
    nat : ℕ → Value
    negative : ℕ → Value
    float : ℕ → Value
    str : String → Value
    list : Items → Value
    dict : Fields → Value

  pub data Items : Type 0 where
    nil : Items
    cons : Value → Items → Items

  pub data Fields : Type 0 where
    end : Fields
    field : String → Value → Fields → Fields

-- `d.get(k)`, without Python's default of `None`
abbrev pub get : String → Fields → Option Value
get k end = none
get k (field j v d) = if j == k then some v else get k d

-- `d.get(k)`
abbrev pub get_null : String → Fields → Value
get_null k d = get_or (get k d) null

-- `set(d)`: the keys
abbrev pub keys : Fields → List String
keys end = []
keys (field k v d) = k ∷ keys d

-- `bool(v)`: a float is false at 0.0 and at -0.0.
abbrev pub truthy : Value → Bool
truthy null = false
truthy (bool b) = b
truthy (nat n) = not (eqb n 0)
truthy (negative n) = true
truthy (float w) = not (eqb w 0 || eqb w (2 ^ 63))
truthy (str s) = not (s == "")
truthy (list nil) = false
truthy (list (cons v vs)) = true
truthy (dict end) = false
truthy (dict (field k v d)) = true

-- `a or b`
abbrev pub or_else : Value → Value → Value
or_else a b = if truthy a then a else b

-- `str(v)`, over Python's print of numbers, lists and dicts
abbrev pub py_str : (Value → String) → Value → String
py_str repr null = "None"
py_str repr (bool true) = "True"
py_str repr (bool false) = "False"
py_str repr (str s) = s
py_str repr v = repr v

-- `v == s` for a text `s`
abbrev pub is_text : String → Value → Bool
is_text s (str t) = t == s
is_text s _ = false

-- `s in [...]`
abbrev pub has_text : String → Items → Bool
has_text s nil = false
has_text s (cons v vs) = is_text s v || has_text s vs

-- `t in s` for texts
abbrev pub has_substring : String → String → Bool
has_substring s t = elim (find? s t) [ none ↦ false | some _ ↦ true ]

pub Value-discrete : Discrete Value
Value-discrete = hlevel (ℕ_discrete, String-discrete)

-- The entries of two dicts in a row.
abbrev pub append_fields : Fields → Fields → Fields
append_fields end e = e
append_fields (field k v d) e = field k v (append_fields d e)
