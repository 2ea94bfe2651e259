-- ===== src/Updater/Tests.antt =====
-- The updater of version 0.1.0. A prerelease is a number here, the empty one, which comes after all
-- others, is 2.
use zaku.Prelude.{◌≡◌, refl, ℕ, ◌||◌, ◌==◌, ◌≤◌, ◌<◌, true, false, Option, none, some, ok, err}
use zaku.Order.{ℕ_order}
use zaku.AppVersion.{Semver, AppVersion, is_stable, version_order}
use zaku.Updater.{
  UpdateStatus, PollTask, checking, idle, start_download, check_if_newer, finish, downloading,
  installing, updated, failed, manual, fetching, fetching_asset, fetching_install, Updater,
  Versions, is_pending, new, poll, start_update, release_fetched, report_progress, downloaded,
  installed,
}
use zaku.Updater.Step.{polls, starts, fetches, reports, downloads, installs, Reach, start, later}
use zaku.Updater.Invariant.{StatusIsNewer}
use zaku.Updater.Safety.{Reach-Safe}
use zaku.Updater.Failure.{check_automatically, check_automatically-forgets}
use zaku.Updater.Progress.{answers_left, answers_left-decreases}

abbrev semver : Semver ℕ
semver = record { pre_order = ℕ_order; pre_is_empty = λ p. p == 2 }

abbrev version : ℕ → ℕ → AppVersion ℕ
version minor patch = record { major = 0; minor = minor; patch = patch; prerelease = 2 }

-- An error is a number, the missing dependency is 1 and the refusal of a prerelease is 2.
abbrev versions : Versions (AppVersion ℕ) ℕ
versions = record {
  order = version_order semver;
  is_stable = is_stable semver;
  unstable_release = 2;
  is_missing_dependency = λ e. e == 1;
}

abbrev Zaku : Type 0
Zaku = Updater (AppVersion ℕ) ℕ ℕ

abbrev at_start : Zaku
at_start = new (version 1 0)

abbrev in_state : UpdateStatus (AppVersion ℕ) ℕ ℕ → Option (PollTask (AppVersion ℕ) ℕ ℕ) → Zaku
in_state status task = record at_start {
  status = status;
  pending_poll = task;
  update_check_type = manual;
}

Reach-fetching : Reach versions (version 1 0) (in_state checking (some (fetching idle)))
unfolding poll start_update
Reach-fetching = later (later start (polls manual)) (starts (ok tt) refl)

Reach-downloading :
    Reach versions
      (version 1 0)
      (in_state (downloading (version 2 0) none) (some (fetching_asset idle (version 2 0))))
unfolding release_fetched start_download check_if_newer
Reach-downloading = later Reach-fetching (fetches idle (ok (version 2 0)) refl)

Reach-half :
    Reach versions
      (version 1 0)
      (in_state (downloading (version 2 0) (some 50)) (some (fetching_asset idle (version 2 0))))
unfolding report_progress
Reach-half = later Reach-downloading (reports idle (version 2 0) (some 50) refl)

Reach-installing :
    Reach versions
      (version 1 0)
      (in_state (installing (version 2 0)) (some (fetching_install idle (version 2 0))))
unfolding downloaded
Reach-installing = later Reach-half (downloads idle (version 2 0) (ok tt) refl)

abbrev waiting : Zaku
waiting = record (in_state (updated (version 2 0)) none) { should_show_notification = true }

Reach-waiting : Reach versions (version 1 0) waiting
unfolding installed finish
Reach-waiting = later Reach-installing (installs idle (version 2 0) (ok tt) refl)

-- The next check finds a later version still, and gets as far as its installer.
abbrev waiting_again : Zaku
waiting_again = record waiting {
  status = installing (version 2 1);
  pending_poll = some (fetching_install (updated (version 2 0)) (version 2 1));
}

Reach-again : Reach versions (version 1 0) waiting_again
unfolding poll start_update release_fetched start_download check_if_newer downloaded
Reach-again =
    later
      (later (later (later Reach-waiting (polls manual)) (starts (ok tt) refl))
        (fetches (updated (version 2 0)) (ok (version 2 1)) refl))
      (downloads (updated (version 2 0)) (version 2 1) (ok tt) refl)

-- A prerelease is refused, and a person who asked is told so.
prerelease_refused :
    (release_fetched versions
      (in_state checking (some (fetching idle)))
      idle
      (ok (record (version 3 0) { prerelease = 0 }))).status
    ≡ failed 2
unfolding release_fetched start_download check_if_newer finish
prerelease_refused = refl

Reach-Safe_example :
    (waiting_again.current_version ≡ version 1 0)
    × StatusIsNewer versions (version 1 0) waiting_again.status
    × ((is_pending waiting_again.pending_poll || false) ≡ true)
Reach-Safe_example = Reach-Safe versions (version 1 0) waiting_again Reach-again

answers_left-decreases_example :
    (answers_left (installed versions waiting_again (version 2 1) (err 7)).pending_poll < 1)
    × (1 ≤ 4)
answers_left-decreases_example =
    answers_left-decreases versions waiting_again
      (installed versions waiting_again (version 2 1) (err 7))
      (installs (updated (version 2 0)) (version 2 1) (err 7) refl) refl

check_automatically-forgets_example :
    ((check_automatically versions waiting (ok (version 2 0))).status ≡ updated (version 2 0))
    × ((check_automatically versions waiting (err 7)).status ≡ idle)
    × ((check_automatically versions
          (check_automatically versions waiting (err 7))
          (ok (version 2 0))).status
        ≡ downloading (version 2 0) none)
check_automatically-forgets_example =
    check_automatically-forgets versions waiting (version 2 0) 7 refl refl (refl, refl) refl
