-- ===== src/Platform.antt =====
-- Infrastructure that the services share: errors as values, the request's context, and the monad
-- in which a service reads and writes its store.
pub mod Errors
pub mod Exec
pub mod Context
pub mod Uuids
pub mod Http
pub mod Examples
