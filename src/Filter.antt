-- ===== src/Filter.antt =====
-- pkg/filter: the operators, the syntax tree, the grammar and the printer.
pub mod Operator
pub mod Scan
pub mod Path
pub mod Node
pub mod Strings
pub mod Grammar
pub mod Visitor
pub mod Parse
