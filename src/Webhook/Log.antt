-- ===== src/Webhook/Log.antt =====
-- webhook/log.go: the logger that the webhook library gets, on one of log/slog. A logger writes to the end of
-- `written`, the records of the handler that all loggers of the process share.
use cain.Prelude.{List, [], ◌∷◌, ◌++◌}
use cain.Go.Text.{GoString}
use cain.Go.Maps.{Entries}
use cain.Go.Log.{Logger}

pub data Level : Type 0 where
  debug info warn error : Level

pub record Record : Type 0 where
  pub level : Level
  pub message : GoString
  pub attributes : Entries GoString

-- `Debug`, `Info` and `Error` of slog, by their level.
abbrev pub write : Level → GoString → Logger → List Record → List Record
write level message l written =
    written ++ record { level = level; message = message; attributes = l.attributes } ∷ []

-- The library chooses the formats and the arguments; `sprintf` is `fmt.Sprintf`.
module _ {Arg : Type 0} (sprintf : GoString → List Arg → GoString) where
  unfoldable pub infof : Logger → GoString → List Arg → List Record → List Record
  infof l format args written = write info (sprintf format args) l written

  unfoldable pub warningf : Logger → GoString → List Arg → List Record → List Record
  warningf l format args written = write info (sprintf format args) l written

  unfoldable pub errorf : Logger → GoString → List Arg → List Record → List Record
  errorf l format args written = write error (sprintf format args) l written

  unfoldable pub debugf : Logger → GoString → List Arg → List Record → List Record
  debugf l format args written = write debug (sprintf format args) l written

-- `values` in the order in which the range visits the map, which Go leaves open.
unfoldable pub with_values : Logger → Entries GoString → Logger
with_values l values = record { attributes = l.attributes ++ values }

-- `log.ValuesFromCtx` and `log.CtxWithValues` of the webhook library are the parameters.
module _ {Ctx : Type 0} (values_from_ctx : Ctx → Entries GoString)
    (ctx_with_values : Ctx → Entries GoString → Ctx) where
  unfoldable pub with_ctx_values : Logger → Ctx → Logger
  unfolding with_values
  with_ctx_values l ctx = with_values l (values_from_ctx ctx)

  unfoldable pub set_values_on_ctx : Logger → Ctx → Entries GoString → Ctx
  set_values_on_ctx l parent values = ctx_with_values parent values
