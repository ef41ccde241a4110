-- ===== src/Services/Options.antt =====
-- server/services/constructionOptions.go and the metadata of constructionPreprocessMetadata.go and
-- constructionMetadata.go, as records.
use rosetta_images.Base.{
  ℕ, not, Bytes, Result, ok, err, ◌==◌, nat_eq, bytes_eq, ◌&&◌, is_empty, if◌then◌else◌, codes,
}
use rosetta_images.Failure.{Failure, message}
use rosetta_images.Services.Common.{is_zero_amount}

pub record ConstructionOptions : Type 0 where
  pub sender : Bytes
  pub receiver : Bytes
  pub amount : Bytes
  pub currency_symbol : Bytes
  pub gas_limit : ℕ
  pub gas_price : ℕ
  pub tx_data : Bytes

pub record ConstructionMetadata : Type 0 where
  pub sender : Bytes
  pub receiver : Bytes
  pub nonce : ℕ
  pub amount : Bytes
  pub currency_symbol : Bytes
  pub gas_limit : ℕ
  pub gas_price : ℕ
  pub tx_data : Bytes
  pub chain_id : Bytes
  pub version : ℕ

unfoldable pub coalesce_gas_limit : ConstructionOptions → ℕ → ℕ
coalesce_gas_limit options estimated_gas_limit =
    if options.gas_limit == 0 then estimated_gas_limit else options.gas_limit

unfoldable pub coalesce_gas_price : ConstructionOptions → ℕ → ℕ
coalesce_gas_price options min_gas_price =
    if options.gas_price == 0 then min_gas_price else options.gas_price

abbrev pub done : Result Failure (Unit {0})
done = ok tt

-- constructionOptions.validate
unfoldable pub validate_options : ConstructionOptions → Bytes → Result Failure (Unit {0})
validate_options options native_currency_symbol =
    if is_empty options.sender
    then err (message (codes "missing option: 'sender'"))
    else if is_empty options.receiver
    then err (message (codes "missing option: 'receiver'"))
    else if is_zero_amount options.amount
    then err (message (codes "missing option: 'amount'"))
    else if is_empty options.currency_symbol
    then err (message (codes "missing option: 'currencySymbol'"))
    else if not (is_empty options.tx_data)
        && not (options.currency_symbol == native_currency_symbol)
    then err (message (codes "for custom currencies, option 'data' must be empty"))
    else done

-- constructionMetadata.validate
unfoldable pub validate_metadata : ConstructionMetadata → Result Failure (Unit {0})
validate_metadata metadata =
    if is_empty metadata.sender
    then err (message (codes "missing metadata: 'sender'"))
    else if is_empty metadata.receiver
    then err (message (codes "missing metadata: 'receiver'"))
    else if metadata.gas_limit == 0
    then err (message (codes "missing metadata: 'gasLimit'"))
    else if metadata.gas_price == 0
    then err (message (codes "missing metadata: 'gasPrice'"))
    else if not (metadata.version == 1)
    then err (message (codes "bad metadata: unexpected 'version'"))
    else if is_empty metadata.chain_id
    then err (message (codes "missing metadata: 'chainID'"))
    else done
