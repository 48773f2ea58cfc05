-- ===== src/Api.antt =====
-- crates/node-api/src/endpoint.rs: the `query-state` and `list-blocks` endpoints. `hex` and the parser
-- of a content address are crates outside the repository: parameters.
pub mod QueryState
pub mod Status
pub mod Blocks
pub mod Server
