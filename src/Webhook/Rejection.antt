-- ===== src/Webhook/Rejection.antt =====
-- What a validation returns for a request that it does not accept.
use dbaas_operator.Prelude.{String, List}
use dbaas_operator.Kube.Errors.{Error}

pub data Rejection : Type 0 where
  -- `field.Invalid(path, value, detail)`
  invalid : List String → String → Rejection
  -- the error of a call
  failed : Error → Rejection
