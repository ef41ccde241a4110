-- ===== src/Services/EventNames.antt =====
-- The identifiers, topics and numbers of topics of transaction events, in
-- server/services/constants.go.
use rosetta_images.Base.{ℕ, Bytes, codes}

abbrev pub transfer_value_only : Bytes
transfer_value_only = codes "transferValueOnly"

abbrev pub esdt_transfer : Bytes
esdt_transfer = codes "ESDTTransfer"

abbrev pub esdt_nft_transfer : Bytes
esdt_nft_transfer = codes "ESDTNFTTransfer"

abbrev pub esdt_nft_create : Bytes
esdt_nft_create = codes "ESDTNFTCreate"

abbrev pub esdt_nft_burn : Bytes
esdt_nft_burn = codes "ESDTNFTBurn"

abbrev pub esdt_nft_add_quantity : Bytes
esdt_nft_add_quantity = codes "ESDTNFTAddQuantity"

abbrev pub multi_esdt_nft_transfer : Bytes
multi_esdt_nft_transfer = codes "MultiESDTNFTTransfer"

abbrev pub topic_invalid_meta_transaction : Bytes
topic_invalid_meta_transaction = codes "meta transaction is invalid"

abbrev pub topic_invalid_meta_transaction_not_enough_gas : Bytes
topic_invalid_meta_transaction_not_enough_gas = codes "meta transaction is invalid: not enough gas"

abbrev pub data_execute_on_dest_context : Bytes
data_execute_on_dest_context = codes "ExecuteOnDestContext"

abbrev pub data_async_call : Bytes
data_async_call = codes "AsyncCall"

abbrev pub num_topics_esdt_transfer : ℕ
num_topics_esdt_transfer = 4

abbrev pub num_topics_per_transfer : ℕ
num_topics_per_transfer = 3

abbrev pub num_topics_esdt_local_burn : ℕ
num_topics_esdt_local_burn = 3

abbrev pub num_topics_esdt_local_mint : ℕ
num_topics_esdt_local_mint = 3

abbrev pub num_topics_esdt_wipe : ℕ
num_topics_esdt_wipe = 4

abbrev pub num_topics_esdt_nft_create : ℕ
num_topics_esdt_nft_create = 4

abbrev pub num_topics_esdt_nft_burn : ℕ
num_topics_esdt_nft_burn = 3

abbrev pub num_topics_esdt_nft_add_quantity : ℕ
num_topics_esdt_nft_add_quantity = 3

abbrev pub num_topics_sc_deploy_before_sirius : ℕ
num_topics_sc_deploy_before_sirius = 2

abbrev pub num_topics_claim_developer_rewards : ℕ
num_topics_claim_developer_rewards = 2

abbrev pub num_topics_transfer_value_only_after_sirius : ℕ
num_topics_transfer_value_only_after_sirius = 2
