-- ===== src/Provider/Requests.antt =====
-- The calls on providers as data, and what holds after all of them.
use Prim.Native.String.{String}
use oma_server.Common.{ℕ, List, [], ◌∷◌, Driver, Result}
use oma_server.Provider.Model.{CreateCommand, UpdateConfigCommand, ProviderError}
use oma_server.Provider.Service.{
  Providers, Cipher, Gate, Adapter, create, update_config, activate, delete, test_connection,
  get_active_adapter,
}
use oma_server.Provider.Coherence.{
  IsCoherent, create-IsCoherent, update_config-IsCoherent, activate-IsCoherent, delete-IsCoherent,
  test_connection-IsCoherent, get_active_adapter-IsCoherent,
}

pub data Request : Type 0 where
  create_request : ℕ → String → CreateCommand → Request
  update_request : ℕ → UpdateConfigCommand → Request
  activate_request : ℕ → String → String → Request
  delete_request : String → String → Request
  test_request : String → String → Request
  adapter_request : Request

module _ (lower : String → String) (c : Cipher) (gate : Gate) (driver : Driver)
    (ask : Adapter → Result ProviderError (Unit {0})) where
  unfoldable pub serve : Request → Providers → Providers
  serve (Request.create_request now new_id cmd) s = (create lower c gate now new_id cmd s).1
  serve (Request.update_request now cmd) s = (update_config lower c gate driver now cmd s).1
  serve (Request.activate_request now actor id) s = (activate gate now actor id s).1
  serve (Request.delete_request actor id) s = (delete gate actor id s).1
  serve (Request.test_request actor id) s = (test_connection lower c gate ask actor id s).1
  serve Request.adapter_request s = (get_active_adapter lower c s).1

  unfoldable pub serve_all : List Request → Providers → Providers
  unfolding serve
  serve_all [] s = s
  serve_all (r ∷ rs) s = serve_all rs (serve r s)

  serve-IsCoherent : (r : Request) (s : Providers) → IsCoherent s → IsCoherent (serve r s)
  unfolding serve
  serve-IsCoherent (Request.create_request now new_id cmd) s i =
      create-IsCoherent lower c gate now new_id cmd s i
  serve-IsCoherent (Request.update_request now cmd) s i =
      update_config-IsCoherent lower c gate driver now cmd s i
  serve-IsCoherent (Request.activate_request now actor id) s i =
      activate-IsCoherent gate now actor id s i
  serve-IsCoherent (Request.delete_request actor id) s i = delete-IsCoherent gate actor id s i
  serve-IsCoherent (Request.test_request actor id) s i =
      test_connection-IsCoherent lower c gate ask actor id s i
  serve-IsCoherent Request.adapter_request s i = get_active_adapter-IsCoherent lower c s i

  -- Whatever calls are made and whichever statements fail, at most one provider is active, an id
  -- stands once, and a provider that is cached is the active one of the table.
  pub serve_all-IsCoherent :
      (rs : List Request) (s : Providers) → IsCoherent s → IsCoherent (serve_all rs s)
  unfolding serve_all
  serve_all-IsCoherent [] s i = i
  serve_all-IsCoherent (r ∷ rs) s i = serve_all-IsCoherent rs (serve r s) (serve-IsCoherent r s i)
