-- ===== src/Json.antt =====
-- JSON values as Python holds them, and canonical JSON with its digest (core/canonical.py).
mod Data
mod Supply
mod Print
pub mod Laws
unfoldable pub use Data.*
pub use Supply.*
unfoldable pub use Print.*
