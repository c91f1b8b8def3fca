-- ===== src/Core/Value.antt =====
-- Go's `any`, as far as the code stores values in it: what decoding JSON gives, what coercion to an
-- attribute type gives, and nil. A float64 is its IEEE bits with one zero, which Go's == does not
-- tell from minus zero, and a time.Time is its instant.
use scim_go.Prelude.{ℕ, Text, Bool, ℤ, List, [], ◌∷◌, Option, none, some, Dict.Dict, ◌≡◌, refl, ap}

mutual
  pub data Value : Type 0 where
    null : Value
    text : Text → Value
    boolean : Bool → Value
    number : Text → Value
    int64 : ℤ → Value
    float64 : ℕ → Value
    instant : ℤ → Value
    array : Items → Value
    object : Fields → Value

  pub data Items : Type 0 where
    nil : Items
    cons : Value → Items → Items

  pub data Fields : Type 0 where
    end : Fields
    field : Text → Value → Fields → Fields

-- core.Object: a Go map from names to values
abbrev pub Object : Type 0
Object = Dict Text Value

abbrev pub elements : Items → List Value
elements nil = []
elements (cons v vs) = v ∷ elements vs

abbrev pub items : List Value → Items
items [] = nil
items (v ∷ vs) = cons v (items vs)

abbrev pub entries : Fields → Object
entries end = []
entries (field k v fs) = (k, v) ∷ entries fs

abbrev pub fields : Object → Fields
fields [] = end
fields ((k, v) ∷ o) = field k v (fields o)

pub elements-items : (vs : List Value) → elements (items vs) ≡ vs
elements-items [] = refl
elements-items (v ∷ vs) = ap (λ r. v ∷ r) (elements-items vs)

pub entries-fields : (o : Object) → entries (fields o) ≡ o
entries-fields [] = refl
entries-fields ((k, v) ∷ o) = ap (λ r. (k, v) ∷ r) (entries-fields o)

-- raw.([]any)
abbrev pub as_array : Value → Option (List Value)
as_array (array vs) = some (elements vs)
as_array _ = none
