-- ===== src/Memory/State.antt =====
-- internal/memory: entry.go, edge.go, memory.go and store.go, the state. A time is its microseconds
-- since 1970, and the clock reads none that is earlier.
-- `now` of clock.go reads the system clock, which may also go backwards: the readings are a stream,
-- and the state counts how many were taken. A mutex makes each operation one step.
use scim_go.Prelude.{
  ℕ, suc, ◌+◌, ◌<◌, Text, Bool, List, [], Dict.Dict, ltb, if◌then◌else◌, list_eq, nat_eq, int_eq, ℤ,
  arith,
}
use scim_go.Core.Value.{Object}
use scim_go.Core.Schemas.{Schema, Schemas}
use scim_go.Fields.{Fields}
use scim_go.Store.Link.{Link}
use scim_go.Store.Reference.{Reference}

-- memoryStore, but for the evaluator, which is made from the fields. There is a base schema: New
-- reads its attributes.
pub record Handle : Type 0 where
  pub location : Text
  pub base : Schema
  pub extensions : Schemas
  pub references : List Reference
  pub fields : Fields

-- entry
pub record Entry : Type 0 where
  pub schema : Schema
  pub owner : Handle
  pub body : Object
  pub raw : Text
  pub links : List Link
  pub created : ℕ
  pub updated : ℕ

abbrev pub Entries : Type 0
Entries = Dict Text Entry

-- edge
pub record Edge : Type 0 where
  pub source : Text
  pub attribute : Text

-- What uniqueKey returns; a text of JSON is encodedValue.
pub data KeyValue : Type 0 where
  key_text key_encoded : Text → KeyValue
  key_integer key_instant : ℤ → KeyValue
  key_float : ℕ → KeyValue
  key_boolean : Bool → KeyValue

-- indexKey, with the schema and the attribute by their addresses
pub record IndexKey : Type 0 where
  pub scope : ℕ
  pub attribute : ℕ
  pub value : KeyValue

-- inbound: for each target the set of edges to it
abbrev pub Inbound : Type 0
Inbound = Dict Text (List Edge)

-- uniqueIndex
abbrev pub UniqueIndex : Type 0
UniqueIndex = Dict IndexKey Text

-- Memory
pub record Memory : Type 0 where
  pub entries : Entries
  pub unique : UniqueIndex
  pub inbound : Inbound
  pub clock : ℕ → ℕ
  pub reads : ℕ

-- New
abbrev pub new_memory : (ℕ → ℕ) → Memory
new_memory clock = record { entries = []; unique = []; inbound = []; clock = clock; reads = 0 }

-- `now`: what it returns, and the state after it
abbrev pub now : Memory → ℕ
now m = m.clock m.reads

abbrev pub tick : Memory → Memory
tick m = record m { reads = suc m.reads }

-- `bumped`, which reads the clock once
unfoldable pub bumped : Memory → ℕ → ℕ
bumped m previous = if ltb previous (now m) then now m else previous + 1

-- A resource's time always grows, whatever the clock says.
pub bumped_grows : (m : Memory) (previous : ℕ) → previous < bumped m previous
unfolding bumped
bumped_grows m previous = ground arith
