-- ===== src/Lib.antt =====
-- A model of scim-go, a library of SCIM 2.0 building blocks (RFC 7643 and RFC 7644), by translation of
-- its Go code, with the theorems that its store and the functions under it are correct.
--
-- The parts, from the bottom up:
--   Runtime        What the code calls of Go's standard library and golang.org/x/text and cannot be
--                  read here: Unicode folding, number and time parsing, PRECIS. One record of
--                  functions with three laws; every definition that needs it takes it as an argument.
--   Username       internal/username: Prepare.
--   Core           pkg/core: Kinds (core.go), Value and Object (object.go), Attribute (attribute.go,
--                  attributes.go), Coerce (attribute_type.go, Coerce and Fold), Schemas (schema.go,
--                  schemas.go, common_attributes.go, reference.go), Resources (user.go, group.go,
--                  enterprise_user.go). Object names are case insensitive; Object.Iteration is about the
--                  random order of a Go map.
--   Filter         pkg/filter: Operator (operator.go), Scan (the lexical rules of grammar.go, with
--                  internal/peg), Path (attr_path.go), Node (node.go), Grammar (grammar.go), Parse
--                  (parse.go, path.go, parse_error.go), Visitor (visitor.go, stringify.go). A parser is
--                  a function from the text after its position; Strings is encoding/json on strings,
--                  a record of three functions with three laws.
--   Value          internal/value: value.go, Compare (compare.go), Identity (identity.go) and Sets
--                  (set.go). The record Formats is what they call of strconv, time and encoding/json.
--   Errors         pkg/scimerrors: status and keyword of each error, and the result type.
--   Fields         internal/fields: how a store reads the attributes of a resource.
--   Decode         internal/decode: JSON from the tokens of jsontext, which is a parameter with
--                  json.Marshal (the record Json).
--   Etag           internal/etag: Weak and Parse.
--   Store          pkg/store: Link (link.go, internal/idset), Reference (reference.go, unlink.go),
--                  Record (document.go, record.go, relation.go), Embed (relation.go), Encode
--                  (encode.go).
--   Protocol       pkg/protocol: search_request.go, limits.go and listParam of projection.go; Attribute
--                  (attribute.go), Visitor (visitor.go, evaluator.go, filter.go), Validation
--                  (search_request.go), Projection (projection.go: what a response shows) and
--                  Projection/Names (the names that a client asks for). A visitor's field `scope` is
--                  an argument.
--   Patch          pkg/patch: Operation (operation.go), Budget (budget.go), Keys (keys.go), Matcher
--                  (matcher.go), Writing (writer.go, primary.go), Gates (the tests of mutability of
--                  patcher.go, target.go and merger.go), Index (index.go), Merger (merger.go), Place
--                  and Target (target.go, filter_state.go), ListAdd (list_add.go, carryforward.go),
--                  Replacing (replacer.go, remover.go), Write (target.go), Patcher (patcher.go,
--                  patch.go). Frame and Kept follow what an operation leaves alone. The record
--                  Leftovers is what conversions of Go's library leave beside an error.
--   Memory         internal/memory: State (entry.go, edge.go, memory.go, clock.go), Targets, Inbound,
--                  Unique (unique_index.go, index_key.go), Entries, Operations (store.go, memory.go),
--                  Query (query.go, sort.go, row.go), Evaluator (evaluator.go). On the links between
--                  resources: Mirror, Removal, Reach, Cycles, Acyclic and Chains; on unique values:
--                  Uniqueness; on versions: Versions; on every state that operations lead to:
--                  Reachable; on a client that lists page after page: Query/Walk.
--   Examples       Concrete inputs, and an application of each of the results below.
--
-- How Go is read: a string is the list of its bytes, a map an association list with laws for lookup, a
-- pointer that is compared an address, nil in a result `none`. An operation of the store is a function
-- from the state to its result and the next state, since the code holds one mutex throughout; it
-- returns the state as it was where the code returns an error before it writes. The clock is a stream
-- of readings, in any order and none before 1970. A float64 is its bits.
--
-- A PATCH works on the resource in place, through pointers to objects in it. Here a pointer is a place
-- (the whole, the object under a name, or an element of a list), and a write gives the next resource.
-- After an error there is none: Apply leaves atomicity to its caller, who throws it away.
--
-- Fuel: `reaches` is given one step for each id that it can push, which is at most the number of all
-- targets, and one for the start and the end; `read` of Decode one step for each token; `digits` one
-- for each unit of the number, which is more than it has digits; the grammar of filters one step more
-- than the text has bytes, since every level of nesting and every operand takes a byte.
--
-- Not modelled: pkg/server and cmd (net/http and command lines), pkg/scimtest (a test suite over HTTP),
-- the bodies of pkg/protocol, the attributes that a projection marks as written or fills in,
-- the JSON forms of resources, the detail texts of errors.
pub mod Prelude
pub mod Runtime
pub mod Username
pub mod Core
pub mod Filter
pub mod Value
pub mod Errors
pub mod Fields
pub mod Decode
pub mod Etag
pub mod Store
pub mod Patch
pub mod Memory
pub mod Protocol
pub mod Examples
