-- ===== src/Server/Auth.antt =====
-- internal/server/auth.go: the endpoint that starts the device flow.
use scuffinger.Prelude.{String, string_eq, List, [], ◌∷◌, ◌==◌, if◌then◌else◌}
use scuffinger.Prelude.Result.{Result, ok, err}
use scuffinger.I18n
use scuffinger.I18n.{Error, Messages}
use scuffinger.I18n.Keys
use scuffinger.Auth.Flow.{Web, DeviceCodeResponse, request_device_code}

-- status 422 or 502 with the texts of the body, or 200 with the code
pub data Response : Type 0 where
  unprocessable : String → Response
  bad_gateway : String → Error → Response
  started : DeviceCodeResponse → Response

abbrev pub scopes : List String
scopes = "repo" ∷ "read:org" ∷ "workflow" ∷ []

module _ {W : Type 0} (active : Messages) (web : Web W) where
  code_found : Result Error DeviceCodeResponse × W → Response × W
  code_found (err e, w) = (bad_gateway (I18n.get active Keys.err_auth_device_code) e, w)
  code_found (ok dcr, w) = (started dcr, w)

  unfoldable pub start_device_flow : String → W → Response × W
  unfolding code_found
  start_device_flow client_id w =
      if client_id == ""
      then (unprocessable (I18n.get active Keys.err_auth_no_client_id), w)
      else code_found (request_device_code web client_id scopes w)
