-- ===== src/Block/Replace.antt =====
-- `lc_replaceFreedExtents`: which of the replaced blocks join the layer's freed blocks.
use lcfs.Extent.{Extent}
