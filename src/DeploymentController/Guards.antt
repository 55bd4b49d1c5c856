-- ===== src/DeploymentController/Guards.antt =====
-- The result of the update of a status tells the truth.
use potter_controller.Prelude.{
  Bool, Option, false, if◌then◌else◌, none, refl, some, suc, true, zero, ℕ, ◌∙◌, ◌≡◌,
}
use potter_controller.Api.{ApiError, DeployItemStatus, Json, NamespacedName, second}
use potter_controller.Deploy.Client.{Client}
use potter_controller.DeploymentController.StatusUpdate.{
  Outcome, done, requeue, update_deploy_item_status, update_deploy_item_status_once, update_round,
}
use potter_controller.Util.Requeue.{repeat, repeat_again}

-- One of the calls of a function ended in this world.
abbrev pub Ends : {W : Type 0} → (W → Bool × W) → W → Type 0
Ends {W = W} f u = (v : W) × ((f v).1 ≡ u)

Ends-if :
    {W : Type 0} (f : W → Bool × W) (b : Bool) (x y : Bool × W)
    → Ends f x.1
    → Ends f y.1
    → Ends f (if b then x else y).1
Ends-if f true x y h k = h
Ends-if f false x y h k = k

Ends-repeat_again :
    {W : Type 0} (f : W → Bool × W) (pause : W → W) (n : ℕ) (w : W)
    → Ends f w
    → Ends f (repeat_again f pause n w).1
unfolding repeat_again
Ends-repeat_again f pause zero w h = h
Ends-repeat_again f pause (suc n) w h =
    Ends-if f (f (pause w)).0 (true, (f (pause w)).1) (repeat_again f pause n (f (pause w)).1)
      (pause w, refl) (Ends-repeat_again f pause n (f (pause w)).1 (pause w, refl))

Ends-repeat :
    {W : Type 0} (f : W → Bool × W) (n : ℕ) (pause : W → W) (w : W)
    → Ends f (repeat f (suc n) pause w).1
unfolding repeat
Ends-repeat f n pause w =
    Ends-if f (f w).0 (true, (f w).1) (repeat_again f pause n (f w).1) (w, refl)
      (Ends-repeat_again f pause n (f w).1 (w, refl))

done_none :
    {W : Type 0} (r : Option ApiError × W) (u : W)
    → ◌≡◌ {A = Outcome × W} (elim r.0 [ none ↦ done | some _ ↦ requeue ], r.1) (done, u)
    → r ≡ (none, u)
done_none (none, w) u h = cc
done_none (some e, w) u h = cc

-- Where `updateDeployItemStatus` returns without asking for another call, the update of the status has
-- been done: some round found the deploy item and wrote the status without an error, and it was the
-- last one.
pub status_update_done :
    {W : Type 0} (c : Client W) (json : Json) (key : NamespacedName) (status : DeployItemStatus)
    (w u : W)
    → update_deploy_item_status c json key status w ≡ (done, u)
    → (v : W) × (update_deploy_item_status_once c json key status v ≡ (none, u))
unfolding update_deploy_item_status update_round
status_update_done c json key status w u h =
    let last : Ends (update_round c json key status) _ =
      Ends-repeat (update_round c json key status) 9 (λ (x, v). (x, c.sleep second v)) (none, w) in
    (last.0.1, last.1 ∙ done_none _ u h)
