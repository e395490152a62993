-- ===== src/Tests/Nodes.antt =====
-- A node with unset and with odd settings.
use mathlib.Core.Option.{some-injective}
use market_data_backend.Prelude.{true, [], ◌∷◌, some, refl, subst, inr, arith, All}
use market_data_backend.Prelude.Int.{pos, negsuc}
use market_data_backend.Model.{MarketGroup}
use market_data_backend.Model.DesiredStatus
use market_data_backend.Worker.State.{running}
use market_data_backend.Node.Rounds.{NodeAnswers, granted, new_node, group_weight, rounds, shutdown}
use market_data_backend.Node.Rounds.Leases.{IsOrderly}
use market_data_backend.Node.Rounds.Trace.{shutdown-IsOrderly}
use market_data_backend.Node.Rounds.Within.{IsWithin}
use market_data_backend.Node.Rounds.Candidates.{IsLight}
use market_data_backend.Node.Rounds.Capacity.{HasLightGroups, rounds-IsWithin}
use market_data_backend.Node.{NodeConfig, node_with_defaults}
use market_data_backend.Node.Defaults.{IsUsable, node_with_defaults-IsUsable}

-- The interval of the renewals is longer than the term of the lease.
abbrev odd_config : NodeConfig
odd_config = record {
  node_id = "n";
  hostname = "";
  pod_name = "";
  max_groups = negsuc 2;
  max_weight = pos 7;
  lease_ttl = pos 100;
  renew_interval = pos 200;
  reconcile_interval = pos 0;
  heartbeat_interval = pos 5;
  shutdown_timeout = pos 0;
}

node_with_defaults-IsUsable_example : IsUsable (node_with_defaults odd_config)
node_with_defaults-IsUsable_example = node_with_defaults-IsUsable odd_config (inr (omega arith))

-- One group that can be run, of weight five.
abbrev one_group : MarketGroup
one_group = record {
  group_id = "g";
  exchange = "binance";
  market_type = "spot";
  symbol = "BTC";
  base_asset = "BTC";
  quote_asset = "USDT";
  desired_status = DesiredStatus.running;
  weight = pos 5;
  inputs = [];
}

abbrev one_round : NodeAnswers
one_round = record {
  state_of = λ gid. running;
  runnable = some (one_group ∷ []);
  acquires = λ gid. granted;
  inputs_load = λ gid. true;
  stops = λ gid. true;
}

abbrev tight : NodeConfig
tight = record odd_config { max_groups = pos 1; max_weight = pos 7 }

shutdown-IsOrderly_example :
    IsOrderly (shutdown (rounds (new_node tight) (one_round ∷ one_round ∷ [])) (λ gid. true)).log
shutdown-IsOrderly_example = shutdown-IsOrderly tight (one_round ∷ one_round ∷ []) (λ gid. true)

light : HasLightGroups one_round
unfolding group_weight
light gs h = subst (All IsLight) (some-injective _ _ h) (omega arith, tt)

rounds-IsWithin_example : IsWithin tight 1 7 (rounds (new_node tight) (one_round ∷ []))
rounds-IsWithin_example =
    rounds-IsWithin tight 1 7 (one_round ∷ [])
      (record {
        groups = refl;
        weight = refl;
        some_groups = omega arith;
        some_weight = omega arith;
        small = omega arith;
      })
      (light, tt)
