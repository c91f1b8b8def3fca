-- ===== src/Memory/Reach.antt =====
-- internal/memory/entries.go: the search of `reaches` against chains of links.
use scim_go.Prelude.{
  ℕ, zero, suc, ◌+◌, ◌<◌, ◌≤◌, Text, Bool, true, false, List, [], ◌∷◌, ◌++◌, ◌==◌, ==_iff, list_eq,
  nat_eq, ◌&&◌, ◌||◌, contains, length, ◌≡◌, inl, inr, refl, arith, Bool-cases, length-append,
}
use mathlib.Core.List.{reverse, reverse_aux}
use scim_go.Prelude.Dict.{lookup}
use scim_go.Errors.{ok}
use scim_go.Store.Link.{IdSet, add_id, has_id}
use scim_go.Memory.State.{Entries}
use scim_go.Memory.Targets.{targets_of}
use scim_go.Memory.Entries.{links_of, reaches_loop, reaches, unseen, check_acyclic}

-- Whether the hops lead from an id to the goal, each by the first link of the attribute, which is the
-- one that the search reads.
abbrev pub follows : Entries → Text → Text → List Text → Text → Bool
follows es attribute from [] goal = from == goal
follows es attribute from (t ∷ hops) goal =
    contains t (targets_of (links_of es from) attribute) && follows es attribute t hops goal

contains-append :
    (x : Text) (xs ys : List Text) → contains x (xs ++ ys) ≡ (contains x xs || contains x ys)
contains-append x [] ys = refl
contains-append x (y ∷ xs) ys = ground (arith, contains-append x xs ys)

contains-reverse_aux :
    (x : Text) (xs acc : List Text)
    → contains x (reverse_aux xs acc) ≡ (contains x xs || contains x acc)
contains-reverse_aux x [] acc = refl
contains-reverse_aux x (y ∷ xs) acc = ground (arith, contains-reverse_aux x xs (y ∷ acc))

contains-reverse :
    (x : Text) (xs ys : List Text)
    → contains x (reverse xs ++ ys) ≡ (contains x xs || contains x ys)
contains-reverse x xs ys =
    ground (arith, contains-append x (reverse xs) ys, contains-reverse_aux x xs [])

length-reverse_aux : (xs acc : List Text) → length (reverse_aux xs acc) ≡ length xs + length acc
length-reverse_aux [] acc = omega arith
length-reverse_aux (x ∷ xs) acc = omega (arith, length-reverse_aux xs (x ∷ acc))

length-reverse : (xs ys : List Text) → length (reverse xs ++ ys) ≡ length xs + length ys
length-reverse xs ys = omega (arith, length-append (reverse xs) ys, length-reverse_aux xs [])

-- Seeing one more id takes at least its targets from what is unseen.
unseen-add :
    (es : Entries) (attribute : Text) (seen : IdSet) (id : Text)
    → contains id seen ≡ false
    → unseen es attribute (add_id id seen) + length (targets_of (links_of es id) attribute)
      ≤ unseen es attribute seen
unfolding unseen lookup targets_of
unseen-add [] attribute seen id h = ground arith
unseen-add ((k, e) ∷ es) attribute seen id h = ground (arith, unseen-add es attribute seen id h)

module _ (es : Entries) (goal attribute : Text) where
  abbrev next_of : Text → List Text
  next_of id = targets_of (links_of es id) attribute

  -- Where the search starts when it succeeds: one of the ids that wait.
  reaches_loop-follows :
      (fuel : ℕ) (seen : IdSet) (pending : List Text)
      → reaches_loop fuel es goal attribute seen pending ≡ true
      → (p : Text) × (hops : List Text) × (contains p pending ≡ true)
        × (follows es attribute p hops goal ≡ true)
  unfolding reaches_loop
  reaches_loop-follows zero seen pending h = absurd (ground arith)
  reaches_loop-follows (suc fuel) seen [] h = absurd (ground arith)
  reaches_loop-follows (suc fuel) seen (id ∷ pending) h = elim (Bool-cases (id == goal)) [
    | inl e ↦ (id, [], ground arith, e)
    | inr e ↦ elim (Bool-cases (has_id seen id)) [
      | inl s ↦
          let (p, hops, held, f) = reaches_loop-follows fuel seen pending (ground arith) in
          (p, hops, ground arith, f)
      | inr s ↦
          let (p, hops, held, f) =
            reaches_loop-follows fuel (add_id id seen) (reverse (next_of id) ++ pending)
              (ground arith) in
          elim (Bool-cases (contains p pending)) [
            | inl w ↦ (p, hops, ground arith, f)
            | inr w ↦ (
              id,
              p ∷ hops,
              ground arith,
              ground (arith, contains-reverse p (next_of id) pending),
            )
          ]
    ]
  ]

  -- Every link from an id that was seen leads to one that was seen or waits.
  abbrev Explored : IdSet → List Text → Type 0
  Explored seen pending =
      (id t : Text)
      → contains id seen ≡ true
      → contains t (next_of id) ≡ true
      → (contains t seen || contains t pending) ≡ true

  stays_seen :
      (seen : IdSet)
      → Explored seen []
      → contains goal seen ≡ false
      → (id : Text) (hops : List Text) → contains id seen ≡ true
      → follows es attribute id hops goal ≡ false
  stays_seen seen x g id [] h = ground (arith, ==_iff id goal)
  stays_seen seen x g id (t ∷ hops) h = elim (Bool-cases (contains t (next_of id))) [
    | inl n ↦ ground (arith, stays_seen seen x g t hops, x id t h n)
    | inr n ↦ ground arith
  ]

  reaches_loop-misses :
      (fuel : ℕ) (seen : IdSet) (pending : List Text)
      → unseen es attribute seen + length pending < fuel
      → Explored seen pending
      → contains goal seen ≡ false
      → reaches_loop fuel es goal attribute seen pending ≡ false
      → (id : Text) (hops : List Text) → (contains id seen || contains id pending) ≡ true
      → follows es attribute id hops goal ≡ false
  unfolding reaches_loop
  reaches_loop-misses zero seen pending f x g h id hops w = absurd (omega arith)
  reaches_loop-misses (suc fuel) seen [] f x g h id hops w =
      stays_seen seen x g id hops (ground arith)
  reaches_loop-misses (suc fuel) seen (p ∷ pending) f x g h id hops w =
      elim (Bool-cases (p == goal)) [
        | inl e ↦ absurd (ground arith)
        | inr e ↦ elim (Bool-cases (has_id seen p)) [
          | inl s ↦
              reaches_loop-misses fuel seen pending (omega arith)
                (λ i t a b. ground (arith, x i t a b, ==_iff p t)) g (ground arith) id hops
                (ground (arith, ==_iff p id))
          | inr s ↦
              reaches_loop-misses fuel (add_id p seen) (reverse (next_of p) ++ pending)
                (omega
                  (arith, length-reverse (next_of p) pending, unseen-add es attribute seen p s))
                (λ i t a b.
                  ground
                    (arith, x i t, contains-reverse t (next_of p) pending, ==_iff p t, ==_iff p i))
                (ground arith) (ground arith) id hops
                (ground (arith, contains-reverse id (next_of p) pending))
        ]
      ]

-- When the search succeeds, a chain of links leads from the start to the goal.
pub reaches_sound :
    (es : Entries) (from goal attribute : Text)
    → reaches es from goal attribute ≡ true
    → (hops : List Text) × (follows es attribute from hops goal ≡ true)
unfolding reaches
reaches_sound es from goal attribute h =
    let (p, hops, held, f) =
      reaches_loop-follows es goal attribute (suc (suc (unseen es attribute []))) [] (from ∷ [])
        h in
    (hops, ground (arith, ==_iff from p))

-- When a chain of first links leads from the start to the goal, the search succeeds, with the fuel given.
pub reaches-follows :
    (es : Entries) (from goal attribute : Text) (hops : List Text)
    → follows es attribute from hops goal ≡ true
    → reaches es from goal attribute ≡ true
unfolding reaches
reaches-follows es from goal attribute hops h = elim (Bool-cases (reaches es from goal attribute)) [
  | inl found ↦ found
  | inr missed ↦
      let none_leads =
        reaches_loop-misses es goal attribute (suc (suc (unseen es attribute []))) [] (from ∷ [])
          (omega arith) (λ i t a b. ground arith) refl missed from hops (ground arith) in
      absurd (ground (arith, none_leads))
]

-- When the targets to add pass the check, no chain of first links leads from one to the source.
pub check_acyclic-follows :
    (es : Entries) (source attribute : Text) (targets : List Text) (t : Text) (hops : List Text)
    → check_acyclic es source attribute targets ≡ ok tt
    → contains t targets ≡ true
    → follows es attribute t hops source ≡ false
unfolding check_acyclic
check_acyclic-follows es source attribute [] t hops h c = absurd (ground arith)
check_acyclic-follows es source attribute (u ∷ targets) t hops h c = ground (
  arith,
  check_acyclic-follows es source attribute targets t hops,
  reaches-follows es t source attribute hops,
  ==_iff u t,
)
