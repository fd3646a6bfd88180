-- ===== src/Blockchain.antt =====
-- common/blockchain/block.go: blocks, and the store that a node keeps of them. `files` is the
-- content of the store's directory, a block for each height; `encoding/json` is taken to read back
-- what it wrote. `Path` does not change and is left out, and so is the reserved field `Base`.
mod Defs
mod Store
unfoldable pub use Defs.*
pub use Store.*
