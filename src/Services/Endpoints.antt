-- ===== src/Services/Endpoints.antt =====
-- server/services/constructionService.go: ConstructionPreprocess and ConstructionMetadata, from the
-- object map of the request to that of the response.
pub mod Answers
use rosetta_images.Base.{List, Bytes, Result, ok, err, map_err, ◌>>=◌, if◌then◌else◌}
use rosetta_images.Failure.{Failure}
use rosetta_images.Api.{Libraries}
use rosetta_images.Rosetta.{Amount, ApiError, Operation}
use rosetta_images.Services.Interface.{NetworkProvider}
use rosetta_images.Services.Errors.{
  ErrFactory, err_construction, err_offline_mode, new_err, new_err_with_original,
}
use rosetta_images.Services.ObjectsMaps.{
  ObjectsMaps, new_construction_options, new_construction_preprocess_metadata, to_objects_map,
}
use rosetta_images.Services.Construction.{prepared_metadata, prepared_options}

abbrev pub or_construction_error : ErrFactory → {A : Type 0} → Result Failure A → Result ApiError A
or_construction_error factory r = map_err (new_err_with_original factory err_construction) r

module _ {M : Type 0} ⦃maps : ObjectsMaps M⦄ (factory : ErrFactory)
    (provider : NetworkProvider) where
  -- The map of the metadata of the request, and its operations; the options come as a map.
  unfoldable pub construction_preprocess : M → List Operation → Result ApiError M
  construction_preprocess metadata operations = do
    request_metadata ← or_construction_error factory (new_construction_preprocess_metadata metadata)
    response_options ← prepared_options factory provider request_metadata operations
    or_construction_error factory (to_objects_map maps.marshal_options response_options)

  -- The metadata as a map, and the suggested fee.
  unfoldable pub construction_metadata : ⦃lib : Libraries⦄ → M → Result ApiError (M × Amount)
  construction_metadata options =
      if provider.is_offline then err (new_err factory err_offline_mode) else do
        request_options ← or_construction_error factory (new_construction_options options)
        prepared ← prepared_metadata provider factory request_options
        metadata_as_objects_map ←
            or_construction_error factory (to_objects_map maps.marshal_metadata prepared.0)
        ok (metadata_as_objects_map, prepared.1)
