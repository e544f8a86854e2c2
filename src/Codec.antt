-- ===== src/Codec.antt =====
-- The library routines that the program calls and that are not part of the repository: `json.dumps`
-- with sorted keys, `json.loads`, `hashlib.sha256`, `shlex.quote` and `repr` of a text. They are parameters, and so are
-- `str.lower` and `fnmatch.fnmatch`, whose tables and patterns are the library's.
use master_control.Prelude.{String, Bool, Option}
use master_control.Value.{Value}

pub record Codec : Type 0 where
  pub dumps : Value → String
  pub loads : String → Option Value
  pub sha256 : String → String
  pub quote : String → String
  pub repr : String → String

pub record Texts : Type 0 where
  pub lower : String → String
  pub fnmatch : String → String → Bool
