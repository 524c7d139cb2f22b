-- ===== src/Tests/Running.antt =====
-- The job table at work.
use cangling_update.Base.{true, [], ◌∷◌, arith}
use cangling_update.Text.{text, text_is_eq}
use cangling_update.Jobs.{JobHub, JobProgress, pending_job, step, finishes_err}
use cangling_update.Jobs.Laws.{HubInv, step-HubInv}

abbrev running : JobProgress
running = record (pending_job (text "a")) {
  phase = text "load";
  current = 1;
  total = 4;
  percent = 25;
}

abbrev ended : JobProgress
ended = record (pending_job (text "b")) { phase = text "done"; percent = 100; done = true }

abbrev hub : JobHub
hub = (text "a", running) ∷ (text "b", ended) ∷ []

hub-HubInv : HubInv hub
hub-HubInv = (ground arith, (ground arith, tt))

step-HubInv_example : HubInv (step hub (finishes_err (text "a") (text "disk full")))
step-HubInv_example = step-HubInv hub (finishes_err (text "a") (text "disk full")) hub-HubInv
