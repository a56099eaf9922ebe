-- ===== src/Chanutil.antt =====
-- chanutil/chainutil.go: joining channels and spreading one.
pub mod FanIn
pub mod FanOut
pub mod Examples
