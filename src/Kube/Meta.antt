-- ===== src/Kube/Meta.antt =====
-- Object metadata. Fields that the program neither reads nor writes are left out.
use cain.Prelude.{List}
use cain.Go.Text.{GoString}
use cain.Go.Maps.{GoMap}

pub record OwnerReference : Type 0 where
  pub kind : GoString
  pub name : GoString
  pub uid : GoString

pub record ObjectMeta : Type 0 where
  pub name : GoString
  pub namespace : GoString
  pub labels : GoMap GoString
  pub annotations : GoMap GoString
  pub owner_references : List OwnerReference
