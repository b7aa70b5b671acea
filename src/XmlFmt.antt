-- ===== src/XmlFmt.antt =====
-- internal/consumption/xmlfmt: the ESMP parser, the XML decoding it uses, and a loop over tokens.
pub mod Decode
pub mod Loop
pub mod Esmp
