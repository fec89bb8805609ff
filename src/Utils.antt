-- ===== src/Utils.antt =====
-- utils.py: the functions on requests and responses that the stream handlers share.
pub mod Percent
pub mod Headers
pub mod Names
