-- ===== src/Patch/Frame.antt =====
-- pkg/patch: what a write at one attribute leaves alone, on the objects that a path leads to.
use scim_go.Prelude.{
  Text, Bool, true, false, Option, none, some, List, [], ◌∷◌, ◌==◌, list_eq, nat_eq, if◌then◌else◌,
  ◌≡◌, refl, arith, Bool-cases, inl, inr,
}
use scim_go.Runtime.{Runtime, equal_fold}
use scim_go.Errors.{ok}
use scim_go.Core.Value.{Value, Object, null, object, fields, array, items}
use scim_go.Core.Object.{get, set, remove}
use scim_go.Core.Object.Laws.{get-set, get-remove}
use scim_go.Patch.Place.{
  Place, whole, nested, element, list_of, replace_nth, write_place, container, made_container,
  with_container, unassign_empty_extension,
}
use scim_go.Patch.Target.{Target}
use scim_go.Patch.Writing.{child}

-- A place stands under the name that the path has. In the whole container the key is that name.
abbrev pub IsUnder : Text → Text → Place → Type 0
IsUnder name key whole = key ≡ name
IsUnder name key (nested n) = n ≡ name
IsUnder name key (element n i) = n ≡ name

abbrev pub AreUnder : Text → Text → List Place → Type 0
AreUnder name key [] = Unit {0}
AreUnder name key (p ∷ places) = IsUnder name key p × AreUnder name key places

-- The name that a write in a target touches in the resource.
abbrev pub touched : Target → Text
touched t = if t.extension == [] then t.path.name else t.extension

module _ ⦃R : Runtime⦄ where
  -- What is read of a resource: the value of a name, or nothing
  unfoldable pub read_at : Option Text → Object → Value
  read_at none o = null
  read_at (some name) o = get o name

  -- A write to the name is read.
  unfoldable pub is_read : Option Text → Text → Bool
  is_read none name = false
  is_read (some other) name = equal_fold name other

  read_at-set :
      (m : Option Text) (o : Object) (name : Text) (v : Value)
      → is_read m name ≡ false
      → read_at m (set o name v) ≡ read_at m o
  unfolding read_at is_read
  read_at-set none o name v h = refl
  read_at-set (some other) o name v h = (get-set o name other v h).1

  read_at-remove :
      (m : Option Text) (o : Object) (name : Text)
      → is_read m name ≡ false
      → read_at m (remove o name) ≡ read_at m o
  unfolding read_at is_read
  read_at-remove none o name h = refl
  read_at-remove (some other) o name h = get-remove o name other h

module _ ⦃R : Runtime⦄ (m : Option Text) where
  pub get-remove_other :
      (o : Object) (name : Text) → is_read m name ≡ false → read_at m (remove o name) ≡ read_at m o
  get-remove_other o name h = read_at-remove m o name h

  pub get-set_other :
      (o : Object) (name : Text) (v : Value)
      → is_read m name ≡ false
      → read_at m (set o name v) ≡ read_at m o
  get-set_other o name v h = read_at-set m o name v h

  -- An object in a container, changed under the name of the path
  pub get-write_place :
      (c o : Object) (p : Place) (name k : Text)
      → IsUnder name k p
      → is_read m name ≡ false
      → (p ≡ whole → read_at m o ≡ read_at m c)
      → read_at m (write_place c p o) ≡ read_at m c
  unfolding write_place
  get-write_place c o whole name k u h w = w refl
  get-write_place c o (nested n) name k u h w =
      get-set_other c n (object (fields o)) (ground (arith, u))
  get-write_place c o (element n i) name k u h w =
      get-set_other c n (array (items (replace_nth (list_of (get c n)) i (object (fields o)))))
        (ground (arith, u))

  pub get-child :
      (o : Object) (name : Text) (made : Object × Object)
      → is_read m name ≡ false
      → child o name ≡ ok made
      → read_at m made.0 ≡ read_at m o
  unfolding child
  get-child o name made h e = ground (arith, get-set_other o name (object (fields [])) h)

  -- The resource with another container
  pub get-with_container :
      (root c : Object) (t : Target)
      → is_read m (touched t) ≡ false
      → ((t.extension == []) ≡ true → read_at m c ≡ read_at m root)
      → read_at m (with_container root t.extension c) ≡ read_at m root
  unfolding with_container
  get-with_container root c t h w = elim (Bool-cases (t.extension == [])) [
    | inl e ↦ rw e (w e)
    | inr e ↦ ground (arith, get-set_other root t.extension (object (fields c)))
  ]

  pub get-container :
      (root : Object) (t : Target) → (t.extension == []) ≡ true → container root t.extension ≡ root
  unfolding container
  get-container root t e = ground arith

  pub get-made_container :
      (root : Object) (t : Target) (made : Object × Object)
      → is_read m (touched t) ≡ false
      → made_container root t.extension ≡ ok made
      → (read_at m made.0 ≡ read_at m root) × ((t.extension == []) ≡ true → made.1 ≡ made.0)
  unfolding made_container
  get-made_container root t made h e = elim (Bool-cases (t.extension == [])) [
    | inl y ↦ (ground arith, λ _. ground arith)
    | inr n ↦ (ground (arith, get-child root t.extension made), λ y. absurd (ground arith))
  ]

  pub get-unassign_empty_extension :
      (root : Object) (t : Target)
      → is_read m (touched t) ≡ false
      → read_at m (unassign_empty_extension root t.extension) ≡ read_at m root
  unfolding unassign_empty_extension
  get-unassign_empty_extension root t h = ground (arith, get-remove_other root t.extension)
