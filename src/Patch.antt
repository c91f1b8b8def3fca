-- ===== src/Patch.antt =====
-- pkg/patch: PATCH operations on a resource. A Go map that is written in place is the map that the
-- function returns, and a pointer into the resource is a place in it. An error leaves what was
-- written before it in Go, which the caller throws away; here an error is all that is left.
pub mod Operation
pub mod Budget
pub mod Keys
pub mod Matcher
pub mod Writing
pub mod Gates
pub mod Index
pub mod Merger
pub mod Place
pub mod Target
pub mod ListAdd
pub mod Replacing
pub mod Write
pub mod Patcher
pub mod Frame
pub mod Kept
