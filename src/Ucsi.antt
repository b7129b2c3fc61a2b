-- ===== src/Ucsi.antt =====
-- lib/libucsi: transport packets, sections, descriptors and the tables carried in sections.
pub mod SectionBuf
pub mod Descriptor
pub mod Codec
pub mod TransportPacket
pub mod PsiTable
pub mod Crc32
pub mod SectionExt
