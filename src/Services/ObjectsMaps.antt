-- ===== src/Services/ObjectsMaps.antt =====
-- The object maps that carry options and metadata between the calls of a construction:
-- server/services/common.go, constructionOptions.go, constructionMetadata.go and
-- constructionPreprocessMetadata.go.
use rosetta_images.Base.{ℕ, ◌<◌, ◌≡◌, true, Bool, Bytes, Result, ok, ◌>>=◌}
use rosetta_images.Text.Decimal.{IsDecimal}
use rosetta_images.Failure.{Failure}
use rosetta_images.Services.Options.{ConstructionMetadata, ConstructionOptions}

-- `json.Marshal` and `json.Unmarshal` of a map[string]interface{}, which is `M`, and of both
-- structs; `utf8.Valid` says which strings JSON leaves as they are. A number in such a map is a
-- float64.
pub record ObjectsMaps (M : Type 0) : Type 0 where
  pub marshal_map : M → Result Failure Bytes
  pub unmarshal_map : Bytes → Result Failure M
  pub marshal_options : ConstructionOptions → Result Failure Bytes
  pub unmarshal_options : Bytes → Result Failure ConstructionOptions
  pub marshal_metadata : ConstructionMetadata → Result Failure Bytes
  pub unmarshal_metadata : Bytes → Result Failure ConstructionMetadata
  pub is_valid_utf8 : Bytes → Bool

module _ {M : Type 0} ⦃maps : ObjectsMaps M⦄ where
  unfoldable pub to_objects_map : {A : Type 0} → (A → Result Failure Bytes) → A → Result Failure M
  to_objects_map marshal value = marshal value >>= maps.unmarshal_map

  unfoldable pub from_objects_map : {A : Type 0} → (Bytes → Result Failure A) → M → Result Failure A
  from_objects_map unmarshal obj = maps.marshal_map obj >>= unmarshal

  unfoldable pub new_construction_options : M → Result Failure ConstructionOptions
  new_construction_options obj = from_objects_map maps.unmarshal_options obj

  unfoldable pub new_construction_metadata : M → Result Failure ConstructionMetadata
  new_construction_metadata obj = from_objects_map maps.unmarshal_metadata obj

  -- The struct has the fields and the JSON names of the options.
  unfoldable pub new_construction_preprocess_metadata : M → Result Failure ConstructionOptions
  new_construction_preprocess_metadata obj = from_objects_map maps.unmarshal_options obj

-- The natural numbers below 2 ^ 53, which every float64 holds exactly.
abbrev pub IsExact : ℕ → Type 0
IsExact n = n < 9007199254740992

module _ {M : Type 0} (maps : ObjectsMaps M) where
  abbrev pub IsText : Bytes → Type 0
  IsText s = maps.is_valid_utf8 s ≡ true

  abbrev pub AreExactOptions : ConstructionOptions → Type 0
  AreExactOptions options =
      IsText options.sender
      × IsText options.receiver
      × IsText options.amount
      × IsText options.currency_symbol
      × IsExact options.gas_limit
      × IsExact options.gas_price

  abbrev pub IsExactMetadata : ConstructionMetadata → Type 0
  IsExactMetadata metadata =
      IsText metadata.sender
      × IsText metadata.receiver
      × IsText metadata.amount
      × IsText metadata.currency_symbol
      × IsText metadata.chain_id
      × IsExact metadata.nonce
      × IsExact metadata.gas_limit
      × IsExact metadata.gas_price
      × IsExact metadata.version

-- What JSON does for values whose strings are UTF-8 and whose numbers a float64 holds exactly:
-- they come out of a map as they went in. Decimal texts are UTF-8.
pub record IsExactJson {M : Type 0} (maps : ObjectsMaps M) : Type 0 where
  pub decimal_IsText : (s : Bytes) → IsDecimal s → IsText maps s
  pub options_carried :
      (options : ConstructionOptions)
      → AreExactOptions maps options
      → (obj : M) × (to_objects_map ⦃maps = maps⦄ maps.marshal_options options ≡ ok obj)
        × (new_construction_options ⦃maps = maps⦄ obj ≡ ok options)
  pub metadata_carried :
      (metadata : ConstructionMetadata)
      → IsExactMetadata maps metadata
      → (obj : M) × (to_objects_map ⦃maps = maps⦄ maps.marshal_metadata metadata ≡ ok obj)
        × (new_construction_metadata ⦃maps = maps⦄ obj ≡ ok metadata)
