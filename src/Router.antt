-- ===== src/Router.antt =====
-- core/cv_sapvss_router.go: what a node takes from the network. An envelope binds a payload to a
-- session and an epoch; a message is routed by its tag and the rosters.
pub mod Envelope
pub mod Tags
pub mod Routing
