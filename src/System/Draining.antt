-- ===== src/System/Draining.antt =====
use sacs.Prelude.{>>=-eq-ok, List, [], ok, ok_subst, refl, true, ℤ, ◌∙◌, ◌∷◌, ◌≡◌}
use sacs.Json.{JsonLib}
use sacs.ModuleManager.Invariant.{run_tasks-Registered}
use sacs.ModuleManager.Loop.{run_task, run_tasks}
use sacs.ModuleManager.OnLoop.{TaskFrame, TaskFrame-refl, TaskFrame-trans, run_task-TaskFrame}
use sacs.ModuleManager.Registry.{Registered, Registered-at}
use sacs.State.{Net, Task, World}
use sacs.System.{Reach, Reading}
use sacs.System.Tables.{Reach-Consistent}

-- The posted calls while the loop runs them.

module _ {J : JsonLib} where
  run_tasks-TaskFrame :
      (ts : List (Task J)) (w : World J) {w' : World J}
      → w.different_thread ≡ true
      → run_tasks ts w ≡ ok w'
      → TaskFrame w w'
  unfolding run_tasks
  run_tasks-TaskFrame [] w d h = ok_subst (TaskFrame w) h (TaskFrame-refl w)
  run_tasks-TaskFrame (t ∷ ts) w d h =
      let (w₁, done, h₁) = >>=-eq-ok (run_task t w) (run_tasks ts) h in
      let f = run_task-TaskFrame t w d done in
      TaskFrame-trans f (run_tasks-TaskFrame ts w₁ (f.different_thread ∙ d) h₁)

  -- In any world that a process can reach, when the loop runs the posted calls once, and none of
  -- them throws, none is left and none was posted anew; the table of the proxy server is as before,
  -- and the registry is in order.
  pub loop_drains :
      (port : ℤ) (net : Net) (r : Reading) (w w' : World J)
      → Reach port net w r
      → run_tasks w.posted (record w { posted = [] }) ≡ ok w'
      → (w'.posted ≡ []) × (w'.remote_modules ≡ w.remote_modules) × Registered w'
  loop_drains port net r w w' reach h =
      let c = Reach-Consistent port net w r reach in
      let w₀ = record w { posted = [] } in
      let f = run_tasks-TaskFrame w.posted w₀ c.off_loop h in
      (
        f.posted,
        f.remote_modules,
        run_tasks-Registered w.posted w₀ (Registered-at refl refl c.registered) h,
      )
