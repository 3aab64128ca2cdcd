-- ===== src/Common.antt =====
-- src/common/error.rs: the error type of the crate. The errors of the libraries are parameters.
use Prim.Native.String.{◌++◌ as str_append}
use layer4_lb.Prelude.{String}

pub data LbError (IoError YamlError AnyhowError : Type 0) : Type 0 where
  io : IoError → LbError IoError YamlError AnyhowError
  yaml : YamlError → LbError IoError YamlError AnyhowError
  anyhow : AnyhowError → LbError IoError YamlError AnyhowError
  tls : String → LbError IoError YamlError AnyhowError

-- The `#[error]` attributes, over the texts of the errors inside.
pub display : {I Y A : Type 0} → (I → String) → (Y → String) → (A → String) → LbError I Y A → String
display io_text yaml_text anyhow_text (io e) = str_append "IO Error: " (io_text e)
display io_text yaml_text anyhow_text (yaml e) = str_append "YAML Error: " (yaml_text e)
display io_text yaml_text anyhow_text (anyhow e) = str_append "Anyhow Error: " (anyhow_text e)
display io_text yaml_text anyhow_text (tls e) = str_append "TLS Error: " e
