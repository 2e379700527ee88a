-- ===== src/App/Query.antt =====
-- splittr-app/src/query.rs: the view models of the user interface, from the projection. `none` is a
-- panic of `Cents` arithmetic on overflow.
pub mod Views
pub mod Activity
pub mod Ordered
pub mod Recent
