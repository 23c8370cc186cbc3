-- ===== src/Webhook/Review.antt =====
-- The admission review of the kubewebhook library, as far as the webhooks read it.
use cain.Prelude.{Bool}
use cain.Go.Text.{GoString, text}

-- The operations that the program handles, and the others by their names.
pub data Operation : Type 0 where
  create_operation delete_operation : Operation
  other_operation : GoString → Operation

abbrev pub operation_text : Operation → GoString
operation_text create_operation = text "CREATE"
operation_text delete_operation = text "DELETE"
operation_text (other_operation name) = name

pub record AdmissionReview : Type 0 where
  pub namespace : GoString
  pub operation : Operation
  pub dry_run : Bool
