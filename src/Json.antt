-- ===== src/Json.antt =====
-- JSON values as Python's `json` gives them, and the coercions that the readers of saved data apply:
-- data.get(key), truth, isinstance and str.
use mathlib.Core.Path.{ap}
use xiao_ming.Prelude.{
  ℕ, zero, suc, String, Bool, true, false, not, ◌≡◌, refl, Option, none, some, List, [], ◌∷◌, ◌==◌,
  if◌then◌else◌, Result, ok, eq_iff, Bool-cases, inl, inr, sym, map,
}

-- A number that is negative or no integer is kept as its literal; an object keeps its keys in order.
mutual
  pub data Fields : Type 0 where
    end : Fields
    field : String → Value → Fields → Fields

  pub data Value : Type 0 where
    str : String → Value
    bool : Bool → Value
    num : ℕ → Value
    literal : String → Value
    null : Value
    obj : Fields → Value
    arr : Items → Value

  pub data Items : Type 0 where
    nil : Items
    cons : Value → Items → Items

abbrev pub to_list : Items → List Value
to_list nil = []
to_list (cons v vs) = v ∷ to_list vs

abbrev pub of_list : List Value → Items
of_list [] = nil
of_list (v ∷ vs) = cons v (of_list vs)

pub to_list-of_list : (vs : List Value) → to_list (of_list vs) ≡ vs
to_list-of_list [] = refl
to_list-of_list (v ∷ vs) = ap (λ l. v ∷ l) (to_list-of_list vs)

-- A dict literal.
abbrev pub dict : List (String × Value) → Fields
dict [] = end
dict ((k, v) ∷ rest) = field k v (dict rest)

-- data.get(key)
abbrev pub get : Fields → String → Option Value
get end k = none
get (field j v rest) k = if j == k then some v else get rest k

-- What the readers take from the Python runtime: `str` of a value that is no text, json.loads of a
-- text (`none` is its error), ast.literal_eval of a text, and `int` of a value that is neither a
-- Boolean nor a natural number.
pub record Python : Type 0 where
  pub repr : Value → String
  pub loads : String → Option Value
  pub literal_eval : String → Option Value
  pub to_int : Value → Result ℕ

-- bool(value)
abbrev pub truthy : Value → Bool
truthy null = false
truthy (bool b) = b
truthy (num zero) = false
truthy (num (suc n)) = true
truthy (literal s) = true
truthy (str s) = not (s == "")
truthy (arr nil) = false
truthy (arr (cons v vs)) = true
truthy (obj end) = false
truthy (obj (field k v fs)) = true

module _ (python : Python) where
  -- str(value)
  abbrev pub text : Value → String
  text (str s) = s
  text v = python.repr v

  -- str(data.get(key) or default)
  abbrev pub text_or : Option Value → String → String
  text_or none d = d
  text_or (some v) d = if truthy v then text v else d

  -- str(data.get(key)) if data.get(key) is not None else None
  abbrev pub optional_text : Option Value → Option String
  optional_text none = none
  optional_text (some null) = none
  optional_text (some v) = some (text v)

  -- int(data.get(key) or 0)
  abbrev pub int_or_zero : Option Value → Result ℕ
  int_or_zero none = ok 0
  int_or_zero (some (num n)) = ok n
  int_or_zero (some (bool true)) = ok 1
  int_or_zero (some v) = if truthy v then python.to_int v else ok 0

  -- The items of `data.get(key) or []`, a list.
  abbrev pub items_or_empty : Option Value → List Value
  items_or_empty (some (arr vs)) = to_list vs
  items_or_empty _ = []

-- bool(data.get(key))
abbrev pub truth : Option Value → Bool
truth none = false
truth (some v) = truthy v

-- text or None, as JSON
abbrev pub of_option : Option String → Value
of_option none = null
of_option (some s) = str s

module _ (python : Python) where
  pub text_or-str : (s : String) → text_or python (some (str s)) "" ≡ s
  text_or-str s = elim (Bool-cases (s == "")) [
    | inl e ↦ rw e (sym ((eq_iff s "").0 e))
    | inr e ↦ rw e
  ]

  pub map-text-str : (xs : List String) → map (text python) (map str xs) ≡ xs
  map-text-str [] = refl
  map-text-str (x ∷ xs) = ap (λ l. x ∷ l) (map-text-str xs)

  pub optional_text-of_option : (o : Option String) → optional_text python (some (of_option o)) ≡ o
  optional_text-of_option none = refl
  optional_text-of_option (some s) = refl
