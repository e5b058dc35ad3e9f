-- ===== src/Discovery.antt =====
-- Discovery: what nodes tell of themselves, and what a node knows of the others.
pub mod Names
pub mod Topics
pub mod NodeListener
