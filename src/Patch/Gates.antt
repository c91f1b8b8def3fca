-- ===== src/Patch/Gates.antt =====
-- pkg/patch: gate of patcher.go, gateRequired of target.go, and the gates of merger.go, which refuse
-- a write to an attribute that is read-only, required or immutable.
use scim_go.Prelude.{Bool, Option, none, some, ◌==◌, nat_eq, not, ◌||◌, if◌then◌else◌, length}
use scim_go.Runtime.{Runtime}
use scim_go.Errors.{Result, ok, err, err_mutability}
use scim_go.Core.Kinds.{read_only, immutable, mutability_eq}
use scim_go.Core.Value.{Value, Object}
use scim_go.Core.Attribute.{Attribute, traits}
use scim_go.Value.{is_unassigned}
use scim_go.Value.Compare.{equal}

-- gate
unfoldable pub gate : Attribute → Result (Unit {0})
gate a = if (traits a).mutability == read_only then err err_mutability else ok tt

-- gateRequired
unfoldable pub gate_required : Attribute → Bool → Result (Unit {0})
gate_required a becomes_unassigned =
    if not (traits a).required || not becomes_unassigned then ok tt else err err_mutability

-- parentGate, and newParentGate: the immutable parent that is assigned
unfoldable pub new_parent_gate : Option Attribute → Object → Option Attribute
new_parent_gate none holder = none
new_parent_gate (some a) holder =
    if (traits a).multi_valued || not ((traits a).mutability == immutable) || length holder == 0
    then none
    else some a

module _ ⦃R : Runtime⦄ where
  -- parentGate.check
  unfoldable pub check_parent : Option Attribute → Attribute → Value → Value → Result (Unit {0})
  check_parent none sub before final = ok tt
  check_parent (some a) sub before final =
      if equal sub before final then ok tt else err err_mutability

  -- gateImmutableWrite
  unfoldable pub gate_immutable_write : Attribute → Value → Value → Result (Unit {0})
  gate_immutable_write sub before candidate =
      if not ((traits sub).mutability == immutable)
        || is_unassigned before
        || equal sub before candidate
      then ok tt
      else err err_mutability
