-- ===== src/Examples/Hubs.antt =====
-- Examples on the rate limiter and the policy of mesh-hub.
use mars_protocol.Common.{◌≡◌, refl, [], ◌∷◌, arith, Bytes, codes, lookup, list_beq}
use mars_protocol.Hub.RateLimit.{operation_beq, query, Windows, window_of, check_window}
use mars_protocol.Hub.RateLimit.Window.{IsWindowChecked, check_window-IsWindowChecked}
use mars_protocol.Hub.Policy.{Tenant, pos}

abbrev address : Bytes
address = 127 ∷ 0 ∷ 0 ∷ 1 ∷ []

-- two queries of one address
abbrev windows : Windows
windows = (address, (query, 5 ∷ 8 ∷ []) ∷ []) ∷ []

windows-at : window_of windows address query ≡ 5 ∷ 8 ∷ []
unfolding lookup list_beq operation_beq
windows-at = refl

check_window-IsWindowChecked_example :
    IsWindowChecked windows address query 3 60 70 (check_window windows address query 3 60 70)
unfolding lookup list_beq operation_beq
check_window-IsWindowChecked_example =
    check_window-IsWindowChecked windows address query 3 60 70
      (omega arith, (omega arith, tt), (omega arith, tt, tt)) (omega arith) (omega arith)

abbrev tenant : Tenant
tenant = record {
  id = codes "t-1";
  name = codes "acme";
  tier = codes "free";
  max_descriptors = 100;
  max_storage_bytes = 1048576;
  max_query_rate = 10;
  max_store_rate = 1;
  current_descriptors = 50;
  current_bytes = 500000;
  mu_balance = pos 5000;
  mu_limit = pos 10000;
  created_at = 0;
}
