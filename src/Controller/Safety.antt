-- ===== src/Controller/Safety.antt =====
-- What the cluster keeps through a reconciliation: a property that no read, update or status patch
-- breaks, and no creation of an object with an owner. Deletions are allowed only of StatefulSets
-- read under a follower name.
pub mod Calls
pub mod Apply
pub mod Provision
pub mod Whole
pub mod Owned
