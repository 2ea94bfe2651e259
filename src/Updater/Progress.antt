-- ===== src/Updater/Progress.antt =====
-- The task of a poll ends: each answer that it gets brings it nearer to its end.
use zaku.Prelude.{
  ◌≡◌, ℕ, suc, ap, ◌≤◌, ◌<◌, Bool, true, false, Option, none, some, Result, ok, err, arith,
}
use zaku.Updater.{
  UpdateStatus, PollTask, spawned, fetching, fetching_asset, fetching_install, Updater, Versions,
  check_if_newer, finish, start_update, start_download, release_fetched, downloaded, installed,
}
use zaku.Updater.Step.{
  Step, polls, dismisses_status, dismisses, starts, fetches, reports, downloads, installs,
}

bounds : {new bound old : ℕ} → new ≤ bound → old ≡ suc bound → bound ≤ 3 → (new < old) × (old ≤ 4)
bounds l e k = (omega arith, omega arith)

module _ {V F E : Type 0} where
  -- How many answers the task may still wait for.
  abbrev pub answers_left : Option (PollTask V F E) → ℕ
  answers_left none = 0
  answers_left (some spawned) = 4
  answers_left (some (fetching previous)) = 3
  answers_left (some (fetching_asset previous newer)) = 2
  answers_left (some (fetching_install previous newer)) = 1

module _ {V F E : Type 0} (versions : Versions V E) where
  -- The steps that are an answer to the task.
  abbrev pub is_answer : {u w : Updater V F E} → Step versions u w → Bool
  is_answer (polls check_type) = false
  is_answer (dismisses_status status) = false
  is_answer dismisses = false
  is_answer (reports previous newer progress e) = false
  is_answer _ = true

  start_update-left :
      (u : Updater V F E) (r : Result E (Unit {0}))
      → answers_left (start_update versions u r).pending_poll ≤ 3
  unfolding start_update finish
  start_update-left u (ok done) = omega arith
  start_update-left u (err error) = omega arith

  start_download-left :
      (u : Updater V F E) (previous : UpdateStatus V F E) (r : Result E (Option V))
      → answers_left (start_download versions u previous r).pending_poll ≤ 2
  unfolding start_download finish
  start_download-left u previous (ok none) = omega arith
  start_download-left u previous (ok (some newer)) = omega arith
  start_download-left u previous (err error) = omega arith

  release_fetched-left :
      (u : Updater V F E) (previous : UpdateStatus V F E) (r : Result E V)
      → answers_left (release_fetched versions u previous r).pending_poll ≤ 2
  unfolding release_fetched
  release_fetched-left u previous (ok fetched) =
      start_download-left u previous (check_if_newer versions u.current_version fetched previous)
  release_fetched-left u previous (err error) = start_download-left u previous (err error)

  downloaded-left :
      (u : Updater V F E) (previous : UpdateStatus V F E) (newer : V) (r : Result E (Unit {0}))
      → answers_left (downloaded versions u previous newer r).pending_poll ≤ 1
  unfolding downloaded finish
  downloaded-left u previous newer (ok done) = omega arith
  downloaded-left u previous newer (err error) = omega arith

  installed-left :
      (u : Updater V F E) (newer : V) (r : Result E (Unit {0}))
      → answers_left (installed versions u newer r).pending_poll ≤ 0
  unfolding installed finish
  installed-left u newer (ok done) = omega arith
  installed-left u newer (err error) = omega arith

  -- Of the task of a poll, whatever it is answered and whatever the status is: an answer always
  -- leaves it fewer answers to wait for, and there are never more than four of them, so that the
  -- task ends and the next poll can start another.
  pub answers_left-decreases :
      (u w : Updater V F E) (s : Step versions u w)
      → is_answer s ≡ true
      → (answers_left w.pending_poll < answers_left u.pending_poll)
        × (answers_left u.pending_poll ≤ 4)
  answers_left-decreases u w (starts dependencies e) a =
      bounds (start_update-left u dependencies) (ap answers_left e) (omega arith)
  answers_left-decreases u w (fetches previous answer e) a =
      bounds (release_fetched-left u previous answer) (ap answers_left e) (omega arith)
  answers_left-decreases u w (downloads previous newer answer e) a =
      bounds (downloaded-left u previous newer answer) (ap answers_left e) (omega arith)
  answers_left-decreases u w (installs previous newer answer e) a =
      bounds (installed-left u newer answer) (ap answers_left e) (omega arith)
  answers_left-decreases u w (polls check_type) a = cc
  answers_left-decreases u w (dismisses_status status) a = cc
  answers_left-decreases u w dismisses a = cc
  answers_left-decreases u w (reports previous newer progress e) a = cc
