-- ===== src/Tests/Sample.antt =====
-- A network provider, library constants and transactions to run the model at. The constants are
-- examples: nothing rests on their values.
use rosetta_images.Base.{
  true, false, Option, none, some, List, [], ◌∷◌, Bytes, codes, ok, err, ◌==◌, bytes_eq,
  if◌then◌else◌, leb, not, pos, ◌/◌,
}
use Prim.Native.String.{String}
use rosetta_images.Failure.{external}
use rosetta_images.Api.{Libraries, ApiTransaction, Event, Block}
use rosetta_images.Rosetta.{Currency}
use rosetta_images.Services.Interface.{NetworkProvider}

instance abbrev pub sample_libraries : Libraries
sample_libraries = record {
  tx_type_normal = codes "normal";
  tx_type_reward = codes "reward";
  tx_type_unsigned = codes "unsigned";
  tx_type_invalid = codes "invalid";
  signal_error_operation = codes "signalError";
  sc_deploy_identifier = codes "SCDeploy";
  builtin_claim_developer_rewards = codes "ClaimDeveloperRewards";
  builtin_esdt_transfer = codes "ESDTTransfer";
  builtin_esdt_local_burn = codes "ESDTLocalBurn";
  builtin_esdt_local_mint = codes "ESDTLocalMint";
  builtin_esdt_wipe = codes "ESDTWipe";
  processing_type_scheduled = codes "Scheduled";
  is_smart_contract_address = λ pub_key. false;
  unmarshal_inner_transaction = λ payload. ok (record {
    inner_value = pos 8;
    receiver_pub_key = codes "carol";
    sender_pub_key = codes "dave";
  });
}

abbrev pub native : Currency
native = record { symbol = codes "XeGLD"; decimals = 18 }

abbrev pub token : Bytes
token = codes "ROSETTA-3a2edf"

abbrev known_token : Bytes → Option Currency
known_token symbol =
    if symbol == token then some (record { symbol = token; decimals = 2 }) else none

-- Every address but "elsewhere" is observed; an address is its own public key.
abbrev pub sample_provider : NetworkProvider
sample_provider = record {
  is_offline = false;
  get_blockchain_name = codes "MultiversX";
  get_native_currency = native;
  get_custom_currency_by_symbol = known_token;
  has_custom_currency = λ symbol. symbol == token;
  get_network_config = record {
    blockchain_name = codes "MultiversX";
    network_id = codes "T";
    network_name = codes "testnet";
    min_gas_price = 1000;
    min_gas_limit = 50;
    gas_per_data_byte = 2;
    execution_gas_price = λ price. price / 100;
    gas_limit_custom_transfer = 200;
    extra_gas_limit_guarded_tx = 50;
    extra_gas_limit_relayed_tx_v3 = 50;
  };
  get_genesis_block_summary = record {
    nonce = 0;
    hash = codes "genesis";
    previous_block_hash = [];
    timestamp = 7;
  };
  get_genesis_timestamp = 7;
  get_genesis_balances = ok [];
  get_node_status = err (external (codes "down"));
  get_block_by_nonce = λ nonce. err (external (codes "down"));
  get_block_by_hash = λ hash. err (external (codes "down"));
  get_account = λ address. err (external (codes "down"));
  get_account_balance = λ address symbol options. err (external (codes "down"));
  is_address_observed = λ address. ok (not (address == codes "elsewhere"));
  compute_shard_id_of_pub_key = λ pub_key. 0;
  convert_pub_key_to_address = λ pub_key. pub_key;
  convert_address_to_pub_key = λ address. ok address;
  compute_transaction_hash = λ tx. ok tx.signature;
  send_transaction = λ tx. ok tx.signature;
  compute_receipt_hash = λ receipt. ok (codes "receipt");
  compute_transaction_fee_for_move_balance = λ tx. 50000;
  get_mempool_transaction_by_hash = λ hash. ok none;
  is_release_sirius_active = λ epoch. true;
  is_release_spica_active = λ epoch. leb 3 epoch;
}

abbrev pub blank : ApiTransaction
blank = record {
  tx_type = codes "normal";
  processing_type_on_source = codes "MoveBalance";
  processing_type_on_destination = codes "MoveBalance";
  hash = codes "aa";
  nonce = 5;
  epoch = 4;
  value = codes "1000";
  receiver = codes "bob";
  sender = codes "alice";
  sender_username = [];
  receiver_username = [];
  gas_price = 1000;
  gas_limit = 50;
  tx_data = [];
  signature = codes "s";
  source_shard = 0;
  destination_shard = 0;
  block_nonce = 0;
  mini_block_type = [];
  mini_block_hash = [];
  timestamp = 9;
  logs = none;
  initially_paid_fee = codes "50";
  is_refund = false;
  original_transaction_hash = [];
  previous_transaction_hash = [];
  original_sender = [];
  operation = [];
  guardian_addr = [];
  relayer_address = [];
  relayer_signature = [];
}

abbrev event_of : String → List Bytes → Event
event_of identifier topics = record {
  address = codes "alice";
  identifier = codes identifier;
  topics = topics;
  event_data = [];
}

-- A call that moves tokens, burns some and claims rewards.
abbrev pub call : ApiTransaction
call = record blank {
  logs = some (
      event_of "ESDTTransfer" (token ∷ [] ∷ (1 ∷ 44 ∷ []) ∷ codes "bob" ∷ [])
      ∷ event_of "ESDTLocalBurn" (token ∷ [] ∷ (7 ∷ []) ∷ [])
      ∷ event_of "ClaimDeveloperRewards" ((9 ∷ []) ∷ codes "alice" ∷ [])
      ∷ []);
}

abbrev pub block_of : List ApiTransaction → Block
block_of txs = record {
  nonce = 12;
  round = 13;
  epoch = 4;
  shard = 0;
  hash = codes "b12";
  prev_block_hash = codes "b11";
  status = [];
  timestamp = 100;
  mini_blocks =
      record {
        block_type = codes "TxBlock";
        processing_type = codes "Normal";
        transactions = txs;
        receipts = [];
      }
      ∷ [];
}
