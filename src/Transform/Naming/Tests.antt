-- ===== src/Transform/Naming/Tests.antt =====
-- naming.rs: the unit tests of the source, and the theorems at concrete inputs.
use pangolin_gateway_api.Prelude.{ℕ, ◌≡◌, refl, Text, codes}
use pangolin_gateway_api.Transform.Naming.{dns_label}
use pangolin_gateway_api.Transform.Naming.Label.{IsDnsLabel, dns_label-IsDnsLabel}
use pangolin_gateway_api.Transform.Naming.Idempotent.{dns_label_idempotent}

-- A hash function to run the code with.
abbrev no_hash : Text → ℕ
no_hash s = 48879

lowercases_and_strips : dns_label no_hash (codes "My_Service.foo") ≡ codes "my-service-foo"
unfolding dns_label
lowercases_and_strips = refl

trims_dashes : dns_label no_hash (codes "---foo---") ≡ codes "foo"
unfolding dns_label
trims_dashes = refl

falls_back : dns_label no_hash (codes "---") ≡ codes "pangolin"
unfolding dns_label
falls_back = refl

abbrev long_name : Text
long_name = codes "aaaaaaaaaaaaaaaaaaaaaaaaaaaaaaaaaaaaaaaaaaaaaaaaaaaaaaaaa-bbbbbbbbbbbbb"

truncates_with_hash :
    dns_label no_hash long_name
    ≡ codes "aaaaaaaaaaaaaaaaaaaaaaaaaaaaaaaaaaaaaaaaaaaaaaaaaaaaaaaaa-beef"
unfolding dns_label
truncates_with_hash = refl

dns_label-IsDnsLabel_example : IsDnsLabel (dns_label no_hash long_name)
dns_label-IsDnsLabel_example = dns_label-IsDnsLabel no_hash long_name

dns_label_idempotent_example :
    dns_label no_hash (dns_label no_hash long_name) ≡ dns_label no_hash long_name
dns_label_idempotent_example = dns_label_idempotent no_hash no_hash long_name
