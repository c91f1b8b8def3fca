-- ===== src/Memory/Chains.antt =====
-- internal/memory/entries.go: chains of links, whichever of a resource's links they take. The search of
-- the code reads the first link of an attribute, so it sees them all where a resource has but one.

pub mod Kept
pub mod Encoded
use scim_go.Prelude.{
  Text, Bool, true, false, List, [], ◌∷◌, ◌==◌, ==_iff, list_eq, nat_eq, ◌&&◌, ◌||◌, not, all,
  contains, if◌then◌else◌, ◌≡◌, refl, arith, Bool-cases, inl, inr, sym, ◌∙◌,
}
use scim_go.Prelude.Dict.{lookup}
use scim_go.Errors.{ok}
use scim_go.Store.Link.{Link}
use scim_go.Memory.State.{Entries}
use scim_go.Memory.Targets.{targets_of}
use scim_go.Memory.Inbound.{links_to}
use scim_go.Memory.Entries.{links_of, reaches, check_acyclic}
use scim_go.Memory.Mirror.{linked}
use scim_go.Memory.Reach.{follows, reaches-follows, check_acyclic-follows}
use scim_go.Memory.Cycles.{FirstAcyclic}

-- No link, and at most one link, has the attribute.
abbrev pub has_none : Text → List Link → Bool
has_none a links = all (λ l. not (l.attribute == a)) links

abbrev pub single : Text → List Link → Bool
single a [] = true
single a (l ∷ links) = if l.attribute == a then has_none a links else single a links

-- No resource has two links of the attribute.
abbrev pub Singled : Entries → Text → Type 0
Singled es a = (id : Text) → single a (links_of es id) ≡ true

-- Whether the hops lead from an id to the goal, each by some link of the attribute.
abbrev pub leads : Entries → Text → Text → List Text → Text → Bool
leads es a from [] goal = from == goal
leads es a from (t ∷ hops) goal = linked es from a t && leads es a t hops goal

-- No chain of links of the attribute leads from a target of a resource back to the resource.
abbrev pub Acyclic : Entries → Text → Type 0
Acyclic es a = (id t : Text) (hops : List Text) → (linked es id a t && leads es a t hops id) ≡ false

links_to-none :
    (a t : Text) (links : List Link) → has_none a links ≡ true → links_to links a t ≡ false
unfolding links_to
links_to-none a t [] h = refl
links_to-none a t (l ∷ links) h = ground (arith, links_to-none a t links)

links_to-single :
    (a t : Text) (links : List Link)
    → single a links ≡ true
    → links_to links a t ≡ contains t (targets_of links a)
unfolding links_to targets_of
links_to-single a t [] h = refl
links_to-single a t (l ∷ links) h =
    ground (arith, links_to-none a t links, links_to-single a t links)

module _ (es : Entries) (a : Text) (singled : Singled es a) where
  leads-follows :
      (from goal : Text) (hops : List Text)
      → leads es a from hops goal ≡ follows es a from hops goal
  leads-follows from goal [] = refl
  leads-follows from goal (t ∷ hops) =
      ground
        (arith, links_to-single a t (links_of es from) (singled from), leads-follows t goal hops)

  pub first-Acyclic : FirstAcyclic es a → Acyclic es a
  first-Acyclic h id t hops = ground (
    arith,
    h id t hops,
    links_to-single a t (links_of es id) (singled id),
    leads-follows t id hops,
  )

  pub FirstAcyclic-all : Acyclic es a → FirstAcyclic es a
  FirstAcyclic-all h id t hops = ground (
    arith,
    h id t hops,
    links_to-single a t (links_of es id) (singled id),
    leads-follows t id hops,
  )

  -- Where no resource has two links of the attribute: when a chain of links leads from the start to the
  -- goal, the search succeeds, with the fuel given.
  pub reaches_complete :
      (from goal : Text) (hops : List Text)
      → leads es a from hops goal ≡ true
      → reaches es from goal a ≡ true
  reaches_complete from goal hops h =
      reaches-follows es from goal a hops (sym (leads-follows from goal hops) ∙ h)

  -- Where no resource has two links of the attribute: when the targets to add pass the check, no chain
  -- of links leads from one of them to the source.
  pub check_acyclic_safe :
      (source : Text) (targets : List Text) (t : Text) (hops : List Text)
      → check_acyclic es source a targets ≡ ok tt
      → contains t targets ≡ true
      → leads es a t hops source ≡ false
  check_acyclic_safe source targets t hops h c =
      leads-follows t source hops ∙ check_acyclic-follows es source a targets t hops h c
