-- ===== src/Web.antt =====
-- What the web pages send: the parts of internal/web that compute without a request.
pub mod Patch
pub mod Paging
