-- ===== src/Api.antt =====
-- apps/api/src: what the API adds to the contexts.
pub mod ExceptionFilter
mod Tests
