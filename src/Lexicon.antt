-- ===== src/Lexicon.antt =====
-- Common/DtaLexicon.h and the return codes of Common/DtaConstants.h.
pub mod Uid
pub mod Method
pub mod Token
pub mod Status
