-- ===== src/Go/Log.antt =====
-- `slog.Logger`, by the attributes that it adds to each record.
use cain.Prelude.{[], ◌∷◌, ◌++◌}
use cain.Go.Text.{GoString}
use cain.Go.Maps.{Entries}

pub record Logger : Type 0 where
  pub attributes : Entries GoString

-- `With` of one key and its value
abbrev pub with_attribute : GoString → GoString → Logger → Logger
with_attribute key value log = record { attributes = log.attributes ++ (key, value) ∷ [] }
