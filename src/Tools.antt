-- ===== src/Tools.antt =====
-- The declaration of a tool: internal/application/tools/schema.go, as far as its execution
-- reads it.
pub mod Caseref
pub mod Params
pub mod Selector
use kb_retv_services.Prelude.{Bool, List}
use kb_retv_services.Prelude.Str.{Str, codes, str_eq}
use kb_retv_services.Prelude.Dict.{Dict}

pub record ToolColumn : Type 0 where
  pub key : Str
  pub kind : Str
  pub primary : Bool

pub record Compose : Type 0 where
  pub mode : Str
  pub headline : Str
  pub headline_i18n : Dict Str
  pub confirm : Str
  pub row : Str
  pub cite : Str
  pub columns : List ToolColumn

pub record Tool : Type 0 where
  pub id : Str
  pub kind : Str
  pub handler : Str
  pub audit : Str
  pub requires_permission : Str
  pub compose : Compose

-- `IsWrite`.
unfoldable pub is_write : Tool → Bool
is_write t = str_eq t.kind (codes "write")
