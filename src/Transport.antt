-- ===== src/Transport.antt =====
-- transport/: what is fetched from the pull request, before anything is verified.
pub mod Fetched
