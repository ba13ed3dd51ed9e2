-- ===== src/Sdk.antt =====
-- packages/nouns-sdk/src/image: images as run-length encoded texts, and the SVG made of them.
pub mod Hex
pub mod Image
pub mod Decode
pub mod Svg
pub mod Encoder
mod Tests
