-- ===== src/Memory/Cycles.antt =====
-- internal/memory: cycles of links, in a table that differs from another in the links of one source.
use scim_go.Prelude.{
  Text, true, false, List, [], ◌∷◌, ◌++◌, ◌==◌, ==_iff, list_eq, nat_eq, ◌&&◌, contains, ◌≡◌, ◌⊎◌,
  inl, inr, arith, Bool-cases,
}
use scim_go.Memory.State.{Entries}
use scim_go.Memory.Targets.{targets_of}
use scim_go.Memory.Entries.{links_of}
use scim_go.Memory.Reach.{follows}

-- No chain of first links of the attribute leads from a target of a resource back to the resource.
abbrev pub FirstAcyclic : Entries → Text → Type 0
FirstAcyclic es attribute =
    (id t : Text) (hops : List Text)
    → (contains t (targets_of (links_of es id) attribute) && follows es attribute t hops id) ≡ false

pub follows-append :
    (es : Entries) (a x y z : Text) (hops more : List Text)
    → follows es a x hops y ≡ true
    → follows es a y more z ≡ true
    → follows es a x (hops ++ more) z ≡ true
follows-append es a x y z [] more h k = rw ((==_iff x y).0 h) k
follows-append es a x y z (t ∷ hops) more h k = ground (arith, follows-append es a t y z hops more)

-- Two tables that differ in the links of one source.
module _ (old new : Entries) (a source : Text)
    (same : (id : Text)
      → (source == id) ≡ false
      → targets_of (links_of new id) a ≡ targets_of (links_of old id) a) where
  -- A chain to the source, cut where it first arrives, is an old one.
  first_arrival :
      (t : Text) (hops : List Text)
      → follows new a t hops source ≡ true
      → (before : List Text) × (follows old a t before source ≡ true)
  first_arrival t [] h = ([], h)
  first_arrival t (u ∷ hops) h = elim (Bool-cases (source == t)) [
    | inl e ↦ ([], ground (arith, ==_iff source t))
    | inr e ↦
        let (before, f) = first_arrival u hops (ground arith) in
        (u ∷ before, ground (arith, same t e))
  ]

  -- A chain is an old one, or passes the source.
  passes_source :
      (t goal : Text) (hops : List Text)
      → follows new a t hops goal ≡ true
      → ((before : List Text) × (follows old a t before goal ≡ true))
        ⊎ ((there : List Text) × (back : List Text) × (follows new a t there source ≡ true)
            × (follows new a source back goal ≡ true))
  passes_source t goal [] h = inl ([], h)
  passes_source t goal (u ∷ hops) h = elim (Bool-cases (source == t)) [
    | inl e ↦ inr ([], u ∷ hops, ground (arith, ==_iff source t), ground (arith, ==_iff source t))
    | inr e ↦ elim (passes_source u goal hops (ground arith)) [
      | inl (before, f) ↦ inl (u ∷ before, ground (arith, same t e))
      | inr (there, back, f, g) ↦ inr (u ∷ there, back, ground arith, g)
    ]
  ]

  module _ (acyclic : FirstAcyclic old a)
      (checked : (t : Text) (hops : List Text)
        → contains t (targets_of (links_of new source) a) ≡ true
        → contains t (targets_of (links_of old source) a) ≡ false
        → follows old a t hops source ≡ false) where
    no_return :
        (t : Text) (hops : List Text)
        → contains t (targets_of (links_of new source) a) ≡ true
        → follows new a t hops source ≡ false
    no_return t hops n = elim (Bool-cases (follows new a t hops source)) [
      | inr f ↦ f
      | inl f ↦
          let (before, g) = first_arrival t hops f in
          absurd (ground (arith, acyclic source t before, checked t before n))
    ]

    -- A chain back to the source does not start at it but with no hop.
    no_loop :
        (goal : Text) (back there : List Text)
        → (source == goal) ≡ false
        → follows new a source back goal ≡ true
        → follows new a goal there source ≡ true
        → true ≡ false
    no_loop goal [] there differ f g = ground (arith, differ, f)
    no_loop goal (u ∷ back) there differ f g =
        let n : contains u (targets_of (links_of new source) a) ≡ true = ground arith in
        let r : follows new a u back goal ≡ true = ground arith in
        ground
          (arith, no_return u (back ++ there) n, follows-append new a u goal source back there r g)

    no_detour :
        (id t : Text) (hops : List Text)
        → (source == id) ≡ false
        → contains t (targets_of (links_of new id) a) ≡ true
        → follows new a t hops id ≡ true
        → true ≡ false
    no_detour id t hops e n f = elim (passes_source t id hops f) [
      | inl (before, g) ↦ ground (arith, acyclic id t before, same id e)
      | inr (there, back, g, k) ↦ no_loop id back (t ∷ there) e k (ground arith)
    ]

    pub still-FirstAcyclic : FirstAcyclic new a
    still-FirstAcyclic id t hops = elim (Bool-cases (source == id)) [
      | inl e ↦ ground (arith, no_return t hops, ==_iff source id)
      | inr e ↦ ground (arith, no_detour id t hops e)
    ]

-- Where every link is an old one, every chain is an old one.
follows-shrink :
    (old new : Entries) (a : Text)
    → ((id t : Text)
        → contains t (targets_of (links_of new id) a) ≡ true
        → contains t (targets_of (links_of old id) a) ≡ true)
    → (from goal : Text) (hops : List Text) → follows new a from hops goal ≡ true
    → follows old a from hops goal ≡ true
follows-shrink old new a less from goal [] h = h
follows-shrink old new a less from goal (t ∷ hops) h =
    ground (arith, less from t, follows-shrink old new a less t goal hops)

pub shrinks-FirstAcyclic :
    (old new : Entries) (a : Text)
    → ((id t : Text)
        → contains t (targets_of (links_of new id) a) ≡ true
        → contains t (targets_of (links_of old id) a) ≡ true)
    → FirstAcyclic old a
    → FirstAcyclic new a
shrinks-FirstAcyclic old new a less acyclic id t hops =
    ground (arith, acyclic id t hops, less id t, follows-shrink old new a less t id hops)
