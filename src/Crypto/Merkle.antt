-- ===== src/Crypto/Merkle.antt =====
-- bccrypto/merkle: tree.go and hash.go. The SM3 digest is a parameter of every definition.
mod Defs
mod Recursion
mod Split
mod Leaves
mod Pairing
mod Iterative
unfoldable pub use Defs.*
pub use Split.*
pub use Recursion.*
pub use Leaves.*
pub use Iterative.*
