-- ===== src/Secrets/Requests.antt =====
-- The requests that the workers of the package secrets take from their channels.
use cain.Prelude.{Option}
use cain.Go.Text.{GoString}
use cain.Go.Maps.{Entries}
use cain.Kube.Meta.{OwnerReference}

pub record CreationRequest : Type 0 where
  pub name : GoString
  pub namespace : GoString
  pub kvs : Entries GoString
  pub ctlr_ref : Option OwnerReference

pub record DeletionRequest : Type 0 where
  pub name : GoString
  pub namespace : GoString
