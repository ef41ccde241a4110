-- ===== src/Tests/Construction.antt =====
-- The construction flow, run at a transfer of a token.
use rosetta_images.Base.{
  ◌+◌, ◌*◌, ◌≤◌, ◌≡◌, ℕ, refl, false, Bytes, ◌∷◌, List, [], arith, codes, ok, ok_or, flat_map,
  bytes_beq, bytes_eq,
}
use rosetta_images.Text.Decimal.{format, parse, parse_ℤ, value}
use rosetta_images.Text.Hex.{hex_encode, hex_decode, hex_digit, from_hex}
use rosetta_images.Text.BigEndian.{set_bytes, to_bytes}
use rosetta_images.Text.Split.{split, has_prefix, trim}
use rosetta_images.Api.{PreparedTx}
use rosetta_images.Rosetta.{Operation, Amount}
use rosetta_images.Services.Interface.{NetworkProvider}
use rosetta_images.Services.Common
use rosetta_images.Services.Converters
use rosetta_images.Services.Extension
use rosetta_images.Services.Errors.{new_err_factory}
use rosetta_images.Services.Options.{ConstructionOptions, ConstructionMetadata}
use rosetta_images.Services.Options as Options
use rosetta_images.Services.Operations as Operations
use rosetta_images.Services.Fees as Fees
use rosetta_images.Services.Fees.{movement_gas_limit, execution_gas_limit}
use rosetta_images.Services.Fees.Bounds.{compute_fee_components_lem}
use rosetta_images.Services.Construction.{
  prepared_options, prepared_metadata, to_transaction, create_operations_from_prepared_tx,
  parse_custom_currency_transfer, compute_data_for_custom_currency_transfer,
}
use rosetta_images.Services.Construction as Construction
use rosetta_images.Services.Construction.TransferData.{
  parse_custom_currency_transfer-compute_data_for_custom_currency_transfer,
}
use rosetta_images.Services.Construction.Intent.{transfer_of_token}
use rosetta_images.Resources.{AccountOnBlock}
use rosetta_images.Services.ObjectsMaps.{from_objects_map, new_construction_preprocess_metadata}
use rosetta_images.Services.Endpoints.{construction_metadata, construction_preprocess}
use rosetta_images.Services.Endpoints.Answers.{IsServed, construction_answers}
use rosetta_images.Services.Submission.{
  ConstructionPayloadsResponse, construction_parse, construction_payloads,
}
use rosetta_images.Tests.Submission.{sample-IsExactJson, sample-WritesTx, sample_json, sample_maps}
use rosetta_images.Services.Construction.RoundTrip.{no_metadata, construction_round_trip}
use rosetta_images.Provider.RelayedV3 as RelayedV3
use rosetta_images.Provider.MoveBalance.{compute_transaction_fee_for_move_balance}
use rosetta_images.Services.Fees.MoveBalance.{
  compute_fee_components-compute_transaction_fee_for_move_balance,
}
use rosetta_images.Tests.Sample.{sample_libraries, sample_provider, token, native, blank}

-- The sample provider with an account to send from.
abbrev online : NetworkProvider
online = record sample_provider {
  get_account = λ address. ok (record {
    account = record { address = address; nonce = 7; balance = codes "1" };
    block_coordinates = record { nonce = 3; hash = codes "b" };
  });
}

construction_run : Unit {0}
unfolding flat_map bytes_beq format parse parse_ℤ hex_encode hex_decode hex_digit from_hex set_bytes
    to_bytes split has_prefix trim Common.is_zero_amount RelayedV3.is_relayed_tx_v3
    Common.get_magnitude_of_amount Common.multiply_uint64 Common.add_big_int
    Converters.string_to_hex Converters.amount_to_hex Converters.hex_to_amount
    Converters.ensure_even_length_of_hex_string Extension.value_to_native_amount
    Extension.value_to_custom_amount Extension.is_native_currency_symbol Options.coalesce_gas_limit
    Options.coalesce_gas_price Options.validate_options Options.validate_metadata
    Operations.index_operations Fees.compute_fee Fees.movement_gas_limit Fees.execution_gas_limit
    Fees.estimated_gas_limit Fees.compute_fee_components Construction.prepared_options
    Construction.preprocessed_options Construction.to_transaction
    Construction.parse_custom_currency_transfer
    Construction.compute_data_for_custom_currency_transfer Construction.is_custom_currency_transfer
    Construction.create_operations_from_prepared_tx Construction.prepared_metadata
construction_run = tt

abbrev asked : List Operation
asked = transfer_of_token online (codes "alice") (codes "bob") token (format 300)

abbrev options : ConstructionOptions
options = ok_or no_metadata (prepared_options new_err_factory online no_metadata asked)

abbrev given : ConstructionMetadata × Amount
given =
    ok_or
      (
        record {
          sender = [];
          receiver = [];
          nonce = 0;
          amount = [];
          currency_symbol = [];
          gas_limit = 0;
          gas_price = 0;
          tx_data = [];
          chain_id = [];
          version = 0;
        },
        record { value = []; currency = record { symbol = []; decimals = 0 } },
      )
      (prepared_metadata online new_err_factory options)

abbrev prepared : PreparedTx
prepared =
    ok_or
      (record {
        sender = [];
        receiver = [];
        nonce = 0;
        value = [];
        gas_limit = 0;
        gas_price = 0;
        tx_data = [];
        signature = [];
        chain_id = [];
        version = 0;
      })
      (to_transaction given.0)

prepared_data : prepared.tx_data ≡ codes "ESDTTransfer@524f53455454412d336132656466@012c"
unfolding construction_run
prepared_data = refl

suggested_fee : given.1.value ≡ codes "144000"
unfolding construction_run
suggested_fee = refl

compute_fee_components_lem_example :
    (144000 ≤ 342 * 1000)
    × (movement_gas_limit online prepared.tx_data + execution_gas_limit online token ≤ 342)
    × (1000 ≤ 1000)
unfolding construction_run
compute_fee_components_lem_example =
    compute_fee_components_lem online new_err_factory options prepared.tx_data 144000 342 1000
      (ground arith) (λ price. omega arith) refl

construction_round_trip_example : create_operations_from_prepared_tx online prepared ≡ ok asked
unfolding construction_run
construction_round_trip_example =
    construction_round_trip online new_err_factory (codes "alice") (codes "bob") token 300 options
      given.0 given.1 prepared (ground arith) (ground arith) (λ currency h. cc) refl refl refl refl

-- A transfer of the native currency, with data.
abbrev native_options : ConstructionOptions
native_options = record no_metadata {
  sender = codes "alice";
  receiver = codes "bob";
  amount = codes "5";
  currency_symbol = native.symbol;
  tx_data = codes "hi";
}

compute_fee_components-compute_transaction_fee_for_move_balance_example :
    54000
    ≡ compute_transaction_fee_for_move_balance online.get_network_config
        (record blank { tx_data = codes "hi" })
unfolding construction_run
compute_fee_components-compute_transaction_fee_for_move_balance_example =
    compute_fee_components-compute_transaction_fee_for_move_balance online new_err_factory
      native_options (record blank { tx_data = codes "hi" }) 54000 54 refl refl refl refl

parse_custom_currency_transfer-compute_data_for_custom_currency_transfer_example :
    parse_custom_currency_transfer (compute_data_for_custom_currency_transfer token (codes "0300"))
    ≡ ok (token, format (value 0 (codes "0300")))
parse_custom_currency_transfer-compute_data_for_custom_currency_transfer_example =
    parse_custom_currency_transfer-compute_data_for_custom_currency_transfer token (codes "0300")
      (ground arith) (ground arith) (ground arith)

apart_from_zero : Path ℕ 342 0 → ⊥
apart_from_zero e = omega (arith, e)

abbrev alice : AccountOnBlock
alice = record {
  account = record { address = codes "alice"; nonce = 7; balance = codes "1" };
  block_coordinates = record { nonce = 3; hash = codes "b" };
}

served : IsServed sample_maps online alice (codes "alice") (codes "bob") token 300
unfolding construction_run
served = record {
  sender_IsText = refl;
  receiver_IsText = refl;
  token_IsText = refl;
  network_IsText = refl;
  sender_given = refl;
  receiver_given = refl;
  token_given = refl;
  network_given = refl;
  token_AllBytes = ground arith;
  token_KeepsSymbol = λ currency h. cc;
  not_native = refl;
  not_zero = omega arith;
  found = refl;
  nonce_IsExact = ground arith;
  gas_price_given = omega arith;
  gas_price_IsExact = ground arith;
  gas_limit_given = apart_from_zero;
  gas_limit_IsExact = ground arith;
}

-- Empty metadata of the request: two numbers, and five empty texts.
abbrev empty_map : Bytes
empty_map = 0 ∷ 0 ∷ 0 ∷ 0 ∷ 0 ∷ 0 ∷ 0 ∷ []

empty_read : new_construction_preprocess_metadata empty_map ≡ ok no_metadata
unfolding new_construction_preprocess_metadata from_objects_map
empty_read = refl

construction_answers_example :
    (options metadata_map : Bytes) × (suggested : Amount)
    × (payloads : ConstructionPayloadsResponse) × (construction_preprocess new_err_factory online
          empty_map asked
        ≡ ok options)
    × (construction_metadata new_err_factory online options ≡ ok (metadata_map, suggested))
    × (construction_payloads metadata_map ≡ ok payloads)
    × (construction_parse online false payloads.unsigned_transaction
        ≡ ok (record { operations = asked; account_identifier_signers = [] }))
construction_answers_example =
    construction_answers sample-IsExactJson sample-WritesTx new_err_factory online alice
      (codes "alice") (codes "bob") token 300 served empty_map (ground arith) refl empty_read
