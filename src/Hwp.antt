-- ===== src/Hwp.antt =====
-- apps/api/nps/hwp.py: the reader of HWP 5 bodies. Bytes are numbers below 256.
pub mod Records
pub mod Paragraphs
pub mod Parse
