-- ===== src/Config/Providers.antt =====
-- internal/config/config.go: the validation of the provider entries, before any of them is used.
pub mod Soundness
use glitchgate.Prelude.{
  ℕ, zero, suc, String, Bool, true, false, not, Option, none, some, List, [], ◌∷◌, ◌==◌,
  if◌then◌else◌, length, ltb, Map, put, empty_map,
}
use glitchgate.Config.Types.{ProviderConfig}

pub data ProviderError : Type 0 where
  name_required : ProviderError
  duplicate_name : String → ProviderError
  token_dir_required : String → ProviderError
  shared_token_dir : String → String → ProviderError
  api_key_required project_required region_required unknown_auth_mode missing_credentials :
      String → ProviderError

-- validateProviderNames, with the names seen; `none` is a nil error.
unfoldable pub validate_provider_names : List ProviderConfig → Map (Unit {0}) → Option ProviderError
validate_provider_names [] seen = none
validate_provider_names (p ∷ ps) seen =
    let rest = validate_provider_names ps (put seen p.name tt) in
    if p.name == ""
    then some name_required
    else elim (seen p.name) [ some x ↦ some (duplicate_name p.name) | none ↦ rest ]

unfoldable pub copilots : List ProviderConfig → List ProviderConfig
copilots [] = []
copilots (p ∷ ps) = let rest = copilots ps in if p.type == "github_copilot" then p ∷ rest else rest

unfoldable pub check_token_dirs : List ProviderConfig → Map String → Option ProviderError
check_token_dirs [] seen = none
check_token_dirs (p ∷ ps) seen =
    let rest = check_token_dirs ps (put seen p.token_dir p.name) in
    if p.token_dir == ""
    then some (token_dir_required p.name)
    else elim (seen p.token_dir) [ some other ↦ some (shared_token_dir other p.name) | none ↦ rest ]

unfoldable pub validate_copilot_providers : List ProviderConfig → Option ProviderError
unfolding copilots check_token_dirs
validate_copilot_providers ps =
    let found = copilots ps in
    if ltb (length found) 2 then none else check_token_dirs found empty_map

-- os.Stat is the parameter `exists`: whether it finds the file.
module _ (exists : String → Bool) where
  unfoldable pub validate_credentials_file : ProviderConfig → Option ProviderError
  validate_credentials_file p =
      if p.credentials_file == ""
      then none
      else if exists p.credentials_file
      then none
      else some (missing_credentials p.name)

  unfoldable pub check_gemini : ProviderConfig → Option ProviderError
  unfolding validate_credentials_file
  check_gemini p =
      if p.auth_mode == "api_key"
      then if p.api_key == "" then some (api_key_required p.name) else none
      else if p.auth_mode == "vertex"
      then if p.project == "" then some (project_required p.name) else validate_credentials_file p
      else some (unknown_auth_mode p.name)

  unfoldable pub check_anthropic : ProviderConfig → Option ProviderError
  unfolding validate_credentials_file
  check_anthropic p =
      if p.auth_mode == "vertex"
      then if p.project == ""
        then some (project_required p.name)
        else if p.region == ""
        then some (region_required p.name)
        else validate_credentials_file p
      else none

  unfoldable pub check_auth : ProviderConfig → Option ProviderError
  unfolding check_gemini check_anthropic
  check_auth p =
      if p.type == "gemini"
      then check_gemini p
      else if p.type == "anthropic"
      then check_anthropic p
      else none

  unfoldable pub validate_vertex_auth_providers : List ProviderConfig → Option ProviderError
  unfolding check_auth
  validate_vertex_auth_providers [] = none
  validate_vertex_auth_providers (p ∷ ps) =
      let rest = validate_vertex_auth_providers ps in
      elim (check_auth p) [ some e ↦ some e | none ↦ rest ]
