-- ===== src/Provider/Requests.antt =====
-- server/provider/requests.go and errors.go: requests to the observer, and its errors made flat.
use rosetta_images.Base.{
  not, Bytes, Result, ok, err, map_err, codes, ◌++◌, ◌>>=◌, if◌then◌else◌, is_empty,
}
use rosetta_images.Failure.{Failure, external, is_offline}
use rosetta_images.Provider.Observer.{
  ApiResponse, NetworkProvider, ObserverFacade, Payload, ProviderLibraries, Resource,
  StructuredApiError,
}

abbrev flat_err : Bytes → Result Failure StructuredApiError → Failure
flat_err api_err (ok e) = external (e.error ++ codes ": " ++ e.code)
flat_err api_err (err _) = external api_err

unfoldable pub convert_structured_api_err_to_flat_err : ⦃libs : ProviderLibraries⦄ → Bytes → Failure
convert_structured_api_err_to_flat_err ⦃libs⦄ api_err =
    flat_err api_err (libs.unmarshal_structured_api_error api_err)

-- The payload, unless the body of the answer reports an error.
abbrev pub payload_of : {A : Type 0} → ApiResponse A → Result Failure A
payload_of response =
    if not (is_empty response.error) then err (external response.error) else ok response.payload

module _ ⦃libs : ProviderLibraries⦄ (provider : NetworkProvider) (observer : ObserverFacade) where
  unfoldable pub get_resource_with_err_conversion :
      (r : Resource) → Bytes → Result Failure (Payload r)
  get_resource_with_err_conversion r url =
      map_err convert_structured_api_err_to_flat_err
        (observer.call_get_rest_end_point r provider.observer_url url)
      >>= payload_of

  unfoldable pub get_resource : (r : Resource) → Bytes → Result Failure (Payload r)
  get_resource r url =
      if provider.is_offline then err is_offline else get_resource_with_err_conversion r url
