-- ===== src/Filter/Node.antt =====
-- pkg/filter/node.go: the syntax tree. In Go a node is a map from tags to values; the grammar makes
-- the five shapes below, of which "and" and "or" are two constructors.
use scim_go.Prelude.{Text, []}
use scim_go.Core.Value.{Value}
use scim_go.Filter.Operator.{Operator, op_present, op_and, op_or, op_unset}
use scim_go.Filter.Path.{AttrPath, split_attr_path}

pub data Node : Type 0 where
  compared : Text → Operator → Value → Node
  present : Text → Node
  conjunction disjunction : Node → Node → Node
  negated : Node → Node
  value_path : Text → Node → Node

-- Node.Operator
unfoldable pub operator : Node → Operator
operator (compared a op v) = op
operator (present a) = op_present
operator (conjunction l r) = op_and
operator (disjunction l r) = op_or
operator _ = op_unset

-- Node.AttrPath: of the "path" or the "attribute", whichever the node has
unfoldable pub attr_path : Node → AttrPath
unfolding split_attr_path
attr_path (compared a op v) = split_attr_path a
attr_path (present a) = split_attr_path a
attr_path (value_path path f) = split_attr_path path
attr_path _ = split_attr_path []
