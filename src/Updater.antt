-- ===== src/Updater.antt =====
-- crates/updater/src/updater.rs: the status of the updater, and the task that checks for, downloads
-- and installs an update. The task runs between the waits of `update`; what it waits for (the
-- server, the download, the installer) answers with a `Result`, which the environment chooses.
pub mod Step
pub mod Invariant
pub mod Tasks
pub mod Safety
mod Tests
pub mod Failure
pub mod Progress
pub mod Success
use zaku.Prelude.{Bool, true, false, not, Option, none, some, if◌then◌else◌, Result, ok, err, ◌>>=◌}
use zaku.Order.{Order, Ordering}

-- `V` is the version of the application, `F` the floating-point progress, `E` an error.
pub data UpdateStatus (V F E : Type 0) : Type 0 where
  idle checking : UpdateStatus V F E
  downloading : V → Option F → UpdateStatus V F E
  installing updated : V → UpdateStatus V F E
  failed : E → UpdateStatus V F E

pub data UpdateCheckType : Type 0 where
  automatic manual : UpdateCheckType

-- Where the task of a poll waits, with the local variables of `update` that it still uses.
pub data PollTask (V F E : Type 0) : Type 0 where
  spawned : PollTask V F E
  fetching : UpdateStatus V F E → PollTask V F E
  fetching_asset fetching_install : UpdateStatus V F E → V → PollTask V F E

pub record Updater (V F E : Type 0) : Type 0 where
  pub status : UpdateStatus V F E
  pub current_version : V
  pub pending_poll : Option (PollTask V F E)
  pub update_check_type : UpdateCheckType
  pub dismissed_status : Option (UpdateStatus V F E)
  -- the key that `set_should_show_update_notification` writes
  pub should_show_notification : Bool

-- What the updater asks of versions and errors.
pub record Versions (V E : Type 0) : Type 0 where
  pub order : Order V
  pub is_stable : V → Bool
  pub unstable_release : E
  pub is_missing_dependency : E → Bool

abbrev pub is_manual : UpdateCheckType → Bool
is_manual automatic = false
is_manual manual = true

module _ {V F E : Type 0} where
  -- `Updater::new`
  abbrev pub new : V → Updater V F E
  new current_version = record {
    status = idle;
    current_version = current_version;
    pending_poll = none;
    update_check_type = automatic;
    dismissed_status = none;
    should_show_notification = false;
  }

  abbrev pub is_idle : UpdateStatus V F E → Bool
  is_idle idle = true
  is_idle _ = false

  abbrev pub is_downloading : UpdateStatus V F E → Option V
  is_downloading (downloading version progress) = some version
  is_downloading _ = none

  abbrev pub is_pending : Option (PollTask V F E) → Bool
  is_pending none = false
  is_pending (some task) = true

  -- `poll`: a task runs already, and may learn that a person asked, or one is spawned.
  unfoldable pub poll : Updater V F E → UpdateCheckType → Updater V F E
  poll updater check_type =
      let asked =
        if is_manual check_type then record updater { dismissed_status = none } else updater in
      if is_pending updater.pending_poll
      then (if is_manual updater.update_check_type
          then asked
          else record asked { update_check_type = check_type })
      else record asked { update_check_type = check_type; pending_poll = some spawned }

  unfoldable pub dismiss_status : Updater V F E → UpdateStatus V F E → Updater V F E
  dismiss_status updater status = record updater { dismissed_status = some status }

  unfoldable pub dismiss : Updater V F E → Updater V F E × Bool
  dismiss updater =
      if is_idle updater.status then (updater, false) else (record updater { status = idle }, true)

  -- The version that a fetched one has to be newer than.
  abbrev pub version_to_beat : V → UpdateStatus V F E → V
  version_to_beat installed_version (updated version) = version
  version_to_beat installed_version _ = installed_version

  abbrev pub kept_status : UpdateStatus V F E → UpdateStatus V F E
  kept_status (updated version) = updated version
  kept_status _ = idle

  -- The callback of the download: its progress is shown while the status is still a download.
  unfoldable pub report_progress : Updater V F E → Option F → Updater V F E
  report_progress updater progress = elim (is_downloading updater.status) [
    | none ↦ updater
    | some version ↦ record updater { status = downloading version progress }
  ]

-- `check_if_fetched_version_is_newer_stable`
abbrev pub is_newer : {V E : Type 0} → Versions V E → V → V → Option V
is_newer versions installed_version fetched_version =
    elim (versions.order.cmp fetched_version installed_version) [
      | Ordering.gt ↦ some fetched_version
      | _ ↦ none
    ]

module _ {V F E : Type 0} (versions : Versions V E) where
  -- `check_if_fetched_version_is_newer`
  unfoldable pub check_if_newer : V → V → UpdateStatus V F E → Result E (Option V)
  check_if_newer installed_version fetched_version status =
      if versions.is_stable fetched_version
      then ok (is_newer versions (version_to_beat installed_version status) fetched_version)
      else err versions.unstable_release

  -- The status that an error leaves; the missing dependency is a case of the Linux build.
  abbrev pub failed_status : UpdateCheckType → E → UpdateStatus V F E
  failed_status automatic error =
      if versions.is_missing_dependency error then failed error else idle
  failed_status manual error = failed error

  -- The end of the task: `update` returned.
  unfoldable pub finish : Updater V F E → Result E (Unit {0}) → Updater V F E
  finish updater (ok u) = record updater { pending_poll = none }
  finish updater (err error) = record updater {
    pending_poll = none;
    status = failed_status updater.update_check_type error;
  }

  -- `update` from its start to the request of the latest release.
  unfoldable pub start_update : Updater V F E → Result E (Unit {0}) → Updater V F E
  unfolding finish
  start_update updater (err error) = finish updater (err error)
  start_update updater (ok dependencies) = record updater {
    status = checking;
    pending_poll = some (fetching updater.status);
  }

  unfoldable pub start_download :
      Updater V F E → UpdateStatus V F E → Result E (Option V) → Updater V F E
  unfolding finish
  start_download updater previous_status (err error) = finish updater (err error)
  start_download updater previous_status (ok none) =
      finish (record updater { status = kept_status previous_status }) (ok tt)
  start_download updater previous_status (ok (some newer_version)) = record updater {
    status = downloading newer_version none;
    pending_poll = some (fetching_asset previous_status newer_version);
  }

  -- The answer of the server: the version of the latest release.
  unfoldable pub release_fetched : Updater V F E → UpdateStatus V F E → Result E V → Updater V F E
  unfolding start_download check_if_newer
  release_fetched updater previous_status fetched = start_download updater previous_status (
      fetched >>= λ fetched_version.
      check_if_newer updater.current_version fetched_version previous_status)

  -- The installer's directory was made and the download is over, or one of these failed.
  unfoldable pub downloaded :
      Updater V F E → UpdateStatus V F E → V → Result E (Unit {0}) → Updater V F E
  unfolding finish
  downloaded updater previous_status newer_version (err error) = finish updater (err error)
  downloaded updater previous_status newer_version (ok done) = record updater {
    status = installing newer_version;
    pending_poll = some (fetching_install previous_status newer_version);
  }

  unfoldable pub installed : Updater V F E → V → Result E (Unit {0}) → Updater V F E
  unfolding finish
  installed updater newer_version (err error) = finish updater (err error)
  installed updater newer_version (ok done) =
      finish (record updater { status = updated newer_version; should_show_notification = true })
        (ok tt)
