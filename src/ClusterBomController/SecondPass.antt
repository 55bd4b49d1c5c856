-- ===== src/ClusterBomController/SecondPass.antt =====
-- A pass over the application configs settles every application, and the next pass has nothing to do.
use potter_controller.Prelude.{All, List, Option, String, false, none, some, true, ◌==◌, ◌≡◌}
use potter_controller.Api.{
  ApiError, ApplicationConfig, ClusterBom, DeployItem, Json, NamespacedName,
}
use potter_controller.ClusterBomController.Calls.{BomControllerClient}
use potter_controller.ClusterBomController.Items.{is_av_check_bom}
use potter_controller.ClusterBomController.Settled.{IsStore, Settled, Spec}
use potter_controller.ControllerUtil.{find_deploy_item_in_list, is_equal_config}

module _ {W : Type 0} (c : BomControllerClient W) (json : Json) (av : Option NamespacedName)
    (stored : W → String → Option Spec) (store : IsStore c json stored) (bom : ClusterBom)
    (plain : is_av_check_bom av bom ≡ false) where
  -- A pass that ended without an error, from a world in which other applications were settled.
  abbrev Passed : List ApplicationConfig → W → Option ApiError × List DeployItem × W → Type 0
  Passed apps w (some e, _, _) = Unit
  Passed apps w (none, _, w') =
      All (Settled c json av stored w') apps
      × ((id : String)
          → All (λ (a : ApplicationConfig). (a.id == id) ≡ false) apps
          → stored w' id ≡ stored w id)

  -- The application has an item in the list that is equal to it.
  abbrev Listed : List DeployItem → ApplicationConfig → Type 0
  Listed items app =
      (x : DeployItem) × (find_deploy_item_in_list items app.id ≡ some x)
      × (is_equal_config json app x ≡ some true)
