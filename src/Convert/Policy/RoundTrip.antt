-- ===== src/Convert/Policy/RoundTrip.antt =====
-- The two versions of a policy say the same.
use dbaas_operator.Prelude.{◌≡◌, arith}
use dbaas_operator.Api.V1alpha1
use dbaas_operator.Api.V1beta1
use dbaas_operator.Convert.Policy.{convert_to, convert_from}

-- A v1beta1 policy comes back from v1alpha1 as it was.
pub policy_to_from : (p : V1beta1.DbaasPolicy) → convert_to (convert_from p) ≡ p
unfolding convert_from convert_to
policy_to_from p = ground arith

-- A v1alpha1 policy comes back from v1beta1 as it was.
pub policy_from_to : (p : V1alpha1.DbaasPolicy) → convert_from (convert_to p) ≡ p
unfolding convert_from convert_to
policy_from_to p = ground arith
