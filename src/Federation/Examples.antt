-- ===== src/Federation/Examples.antt =====
-- A node of one cluster under its federated identity, internal/federation/store.go.
use gate_lens.Common.{false, ◌≡◌, refl, has_prefix, after_prefix}
use gate_lens.Federation.Ids.{global_id, local_id, local_id-global_id}

not_owned : has_prefix "gateway/a" "c::" ≡ false
unfolding after_prefix
not_owned = refl

local_id-global_id_example :
    (local_id "c" (global_id "c" "gateway/a") ≡ "gateway/a")
    × (global_id "c" (global_id "c" "gateway/a") ≡ global_id "c" "gateway/a")
local_id-global_id_example = local_id-global_id "c" "gateway/a" not_owned
