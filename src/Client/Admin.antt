-- ===== src/Client/Admin.antt =====
-- flask_xxljob/client/admin_client.py: `AdminClient`. `post` is `post_to_admins` with the client's
-- configuration, as a function of the API's path and the payload.
use flask_xxljob.Base.{Bool, Text, text, if◌then◌else◌}
use flask_xxljob.Client.Result.{CallResult, local_failure, config}
use flask_xxljob.Model.Value.{Fields}
use flask_xxljob.Model.Request.{RegistryRequest, registry_to_wire}

module _ (post : Text → Fields → CallResult) (enabled : Bool) where
  -- The two methods of the client, by their path.
  abbrev pub call : Text → RegistryRequest → CallResult
  call path request =
      if enabled
      then post path (registry_to_wire request)
      else local_failure (text "Flask-XXLJob is disabled.") config

  -- `registry`
  unfoldable pub registry : RegistryRequest → CallResult
  registry request = call (text "/api/registry") request

  -- `registry_remove`
  unfoldable pub registry_remove : RegistryRequest → CallResult
  registry_remove request = call (text "/api/registryRemove") request
