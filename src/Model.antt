-- ===== src/Model.antt =====
-- internal/model: the domain types that the control plane and the runtime share.
pub mod StreamKind
pub mod DesiredStatus
pub mod ActualStatus
pub mod NodeStatus
pub mod TradeSide
mod Facts
mod Groups
pub mod StreamKey
pub use Facts.*
pub use Groups.*
