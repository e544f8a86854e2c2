-- ===== src/Policy/Parse.antt =====
-- `_parse_loaded_policy` of policy/config.py and the functions below it, on the document that `tomllib`
-- returns. A raised ValueError is `error` with its message.
pub mod Fields
pub mod Document
