-- ===== src/Updater/Safety.antt =====
-- What holds of an updater in every state that it reaches.
use zaku.Prelude.{◌≡◌, refl, Bool, ◌||◌, true, Option, none, some, ok}
use mathlib.Core.Path.{subst}
use zaku.Updater.{
  updated, PollTask, fetching_install, Updater, is_pending, Versions, new, dismiss_status, finish,
  installed,
}
use zaku.Updater.Step.{
  Step, polls, dismisses_status, dismisses, starts, fetches, reports, downloads, installs, Reach,
  start, later,
}
use zaku.Updater.Invariant.{
  IsNewer, StatusIsNewer, TaskIsNewer, is_settled, Invariant, Holds-settled, Invariant-poll,
  Invariant-dismiss, Invariant-start_update,
}
use zaku.Updater.Tasks.{
  Invariant-release_fetched, Invariant-report_progress, Invariant-downloaded, Invariant-installed,
}

module _ {V F E : Type 0} (versions : Versions V E) (current : V) where
  Invariant-new : Invariant {F = F} versions current (new current)
  Invariant-new = Holds-settled versions current refl tt tt refl

  Invariant-Step :
      (u w : Updater V F E)
      → Step versions u w
      → Invariant versions current u
      → Invariant versions current w
  unfolding dismiss_status
  Invariant-Step u w (polls check_type) i = Invariant-poll versions current u check_type i
  Invariant-Step u w (dismisses_status status) i = i
  Invariant-Step u w dismisses i = Invariant-dismiss versions current u i
  Invariant-Step u w (starts dependencies e) i =
      Invariant-start_update versions current u dependencies i
  Invariant-Step u w (fetches previous answer e) i =
      Invariant-release_fetched versions current u previous answer i.keeps_version
        (subst (TaskIsNewer versions current) e i.task_newer)
  Invariant-Step u w (reports previous newer progress e) i =
      Invariant-report_progress versions current u progress i
  Invariant-Step u w (downloads previous newer answer e) i =
      Invariant-downloaded versions current u previous newer answer i.keeps_version
        (subst (TaskIsNewer versions current) e i.task_newer)
  Invariant-Step u w (installs previous newer answer e) i =
      let t = subst (TaskIsNewer versions current) e i.task_newer in
      Invariant-installed versions current u newer answer i.keeps_version t.0

  Reach-Invariant : (u : Updater V F E) → Reach versions current u → Invariant versions current u
  Reach-Invariant u start = Invariant-new
  Reach-Invariant u (later {u = v} r s) = Invariant-Step v u s (Reach-Invariant v r)

  is_pending-settles :
      (task : Option (PollTask V F E)) (b : Bool)
      → (task ≡ none → b ≡ true)
      → (is_pending task || b) ≡ true
  is_pending-settles none b h = h refl
  is_pending-settles (some task) b h = refl

  -- In every state that the updater reaches, whatever the order of polls, dismissals, progress
  -- reports and answers: it knows the version that the application has; a version that it shows as
  -- being downloaded, being installed or installed is stable and comes after that one; and without a
  -- task the status is none of checking, downloading and installing.
  pub Reach-Safe :
      (u : Updater V F E)
      → Reach versions current u
      → (u.current_version ≡ current)
        × StatusIsNewer versions current u.status
        × ((is_pending u.pending_poll || is_settled u.status) ≡ true)
  Reach-Safe u r =
      let i = Reach-Invariant u r in
      (
        i.keeps_version,
        i.status_newer,
        is_pending-settles u.pending_poll (is_settled u.status) i.settles,
      )

  -- In every state that the updater reaches with a task about to install `newer`, which began while
  -- `v` was installed and waited for a restart: if the installer succeeds, the status shows `newer`,
  -- the notification is due, and `newer` is a stable version that comes after `v`.
  pub installed-replaces :
      (u : Updater V F E) (v newer : V)
      → Reach versions current u
      → u.pending_poll ≡ some (fetching_install (updated v) newer)
      → ((installed versions u newer (ok tt)).status ≡ updated newer)
        × ((installed versions u newer (ok tt)).should_show_notification ≡ true)
        × IsNewer versions v newer
  unfolding installed finish
  installed-replaces u v newer r e =
      let t = subst (TaskIsNewer versions current) e (Reach-Invariant u r).task_newer in
      (refl, refl, t.1)
