-- ===== src/Relayer.antt =====
-- crates/relayer: blocks from a remote node into the database. The HTTP request is not modelled: the
-- stream that it opens is the list of its items, and the bytes of a response are the decoder's input.
pub mod Errors
pub mod Sync
pub mod Decode
