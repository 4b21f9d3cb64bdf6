-- ===== src/Convert/Connection/RoundTrip.antt =====
-- Converting a connection to the other version and back.
use dbaas_operator.Prelude.{◌≡◌, ◌↔◌, refl, ap, Option, none, some, arith}
use dbaas_operator.Api.V1alpha1
use dbaas_operator.Api.V1beta1
use dbaas_operator.Convert.Connection.{convert_pointer, convert_to, convert_from}

pub convert_pointer_twice :
    {A B : Type 0} (f : A → B) (g : B → A)
    → ((a : A) → g (f a) ≡ a)
    → (p : Option A) → convert_pointer g (convert_pointer f p) ≡ p
convert_pointer_twice f g h none = refl
convert_pointer_twice f g h (some a) = ap some (h a)

-- A v1alpha1 connection comes back from v1beta1 as it was.
pub connection_from_to : (c : V1alpha1.DbaasConnection) → convert_from (convert_to c) ≡ c
unfolding convert_from convert_to
connection_from_to c = ground arith

-- A v1beta1 connection comes back from v1alpha1 as it was exactly if it has no database service
-- type, which v1alpha1 cannot say.
pub connection_to_from :
    (c : V1beta1.DbaasConnection)
    → (convert_to (convert_from c) ≡ c) ↔ (c.spec.database_service_type ≡ none)
unfolding convert_from convert_to
connection_to_from c = ground arith
