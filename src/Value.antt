-- ===== src/Value.antt =====
-- The values of src/cw/val.h that the configuration keeps as text, and how they come from a message and
-- get into one. Texts and messages are lists of bytes.
pub mod Hex
pub mod Bstr16
pub mod Decimal
pub mod Number
pub mod Byte
pub mod Struct
pub mod Kinds
