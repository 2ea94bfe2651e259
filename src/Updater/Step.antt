-- ===== src/Updater/Step.antt =====
-- What can happen to an updater, in any order: calls of the user interface and of the timer, and
-- the next part of the task that runs.
use zaku.Prelude.{◌≡◌, Option, some, Result}
use zaku.Updater.{
  UpdateStatus, UpdateCheckType, spawned, fetching, fetching_asset, fetching_install, Updater,
  Versions, new, poll, dismiss_status, dismiss, start_update, release_fetched, report_progress,
  downloaded, installed,
}

module _ {V F E : Type 0} (versions : Versions V E) where
  pub data Step (u : Updater V F E) : Updater V F E → Type 0 where
    polls : (check_type : UpdateCheckType) → Step u (poll u check_type)
    dismisses_status : (status : UpdateStatus V F E) → Step u (dismiss_status u status)
    dismisses : Step u (dismiss u).0
    starts :
        (dependencies : Result E (Unit {0}))
        → u.pending_poll ≡ some spawned
        → Step u (start_update versions u dependencies)
    fetches :
        (previous : UpdateStatus V F E) (answer : Result E V)
        → u.pending_poll ≡ some (fetching previous)
        → Step u (release_fetched versions u previous answer)
    reports :
        (previous : UpdateStatus V F E) (newer : V) (progress : Option F)
        → u.pending_poll ≡ some (fetching_asset previous newer)
        → Step u (report_progress u progress)
    downloads :
        (previous : UpdateStatus V F E) (newer : V) (answer : Result E (Unit {0}))
        → u.pending_poll ≡ some (fetching_asset previous newer)
        → Step u (downloaded versions u previous newer answer)
    installs :
        (previous : UpdateStatus V F E) (newer : V) (answer : Result E (Unit {0}))
        → u.pending_poll ≡ some (fetching_install previous newer)
        → Step u (installed versions u newer answer)

  pub data Reach (current_version : V) : Updater V F E → Type 0 where
    start : Reach current_version (new current_version)
    later : {u w : Updater V F E} → Reach current_version u → Step u w → Reach current_version w

  -- What follows from a state, by any number of steps.
  pub data Steps (u : Updater V F E) : Updater V F E → Type 0 where
    here : Steps u u
    next : {w x : Updater V F E} → Steps u w → Step w x → Steps u x

  pub Reach-Steps :
      {current_version : V} {u w : Updater V F E}
      → Reach current_version u
      → Steps u w
      → Reach current_version w
  Reach-Steps r here = r
  Reach-Steps r (next steps step) = later (Reach-Steps r steps) step
