-- ===== src/Config/Sample.antt =====
-- A configuration with a given node id and signer key, for the tests.
use aos_operator.Shared.{some, []}
use aos_operator.Shared.Text.{Text, codes}
use aos_operator.Config.{NodeConfig, OperatorConfig}

abbrev pub node_config : Text → Text → NodeConfig
node_config id key = record {
  node_id = id;
  signer_key = key;
  vrf_key = codes "1b49";
  dispatcher_address = codes "000000";
  node_type = codes "opml";
  cache_msg_maximum = 1000;
  heartbeat_interval = 100;
  ai_models = [];
}

abbrev pub config_of : Text → Text → OperatorConfig
config_of id key = record {
  db = record {
    storage_root_path = some (codes "./");
    pg_db_url = codes "postgres://";
    pg_db_name = codes "operator_db";
    max_connect_pool = 80;
    min_connect_pool = 5;
    connect_timeout = 15;
    acquire_timeout = 300;
  };
  queue = record { queue_url = codes "redis://" };
  net = record {
    rest_url = codes "0.0.0.0:21001";
    outer_url = codes "127.0.0.1:21001";
    dispatcher_url = codes "127.0.0.1:3000";
    callback_url = codes "http://";
    tee_llm_cid = 15;
    tee_llm_port = 5000;
  };
  node = node_config id key;
  chain = record {
    chain_rpc_url = codes "https://";
    vrf_range_contract = codes "0x";
    vrf_sort_precision = 4;
  };
  api = record { read_maximum = 50 };
}
