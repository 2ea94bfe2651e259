-- ===== src/Updater/Invariant.antt =====
-- What holds of an updater, and that polls, dismissals and the start of the task keep it.
use zaku.Prelude.{if-both, ◌≡◌, refl, Bool, true, false, Option, none, some, Result, ok, err}
use zaku.Order.{Ordering}
use zaku.Updater.{
  UpdateStatus, checking, downloading, installing, updated, UpdateCheckType, automatic, manual,
  PollTask, spawned, fetching, fetching_asset, fetching_install, Updater, is_pending, is_manual,
  is_idle, Versions, version_to_beat, poll, dismiss, finish, failed_status, start_update,
}

-- A stable version that comes after `old`.
abbrev pub IsNewer : {V E : Type 0} → Versions V E → V → V → Type 0
IsNewer versions old v = (versions.is_stable v ≡ true) × (versions.order.cmp v old ≡ Ordering.gt)

module _ {V F E : Type 0} (versions : Versions V E) where
  -- The version of a status comes after the application's own.
  abbrev pub StatusIsNewer : V → UpdateStatus V F E → Type 0
  StatusIsNewer current (downloading v progress) = IsNewer versions current v
  StatusIsNewer current (installing v) = IsNewer versions current v
  StatusIsNewer current (updated v) = IsNewer versions current v
  StatusIsNewer current _ = Unit {0}

  -- What the task remembers: the version on its way comes after the one it started with.
  abbrev pub TaskIsNewer : V → Option (PollTask V F E) → Type 0
  TaskIsNewer current none = Unit {0}
  TaskIsNewer current (some spawned) = Unit {0}
  TaskIsNewer current (some (fetching previous)) = StatusIsNewer current previous
  TaskIsNewer current (some (fetching_asset previous newer)) =
      IsNewer versions current newer × IsNewer versions (version_to_beat current previous) newer
  TaskIsNewer current (some (fetching_install previous newer)) =
      IsNewer versions current newer × IsNewer versions (version_to_beat current previous) newer

-- No part of the task is left to change the status.
abbrev pub is_settled : {V F E : Type 0} → UpdateStatus V F E → Bool
is_settled checking = false
is_settled (downloading v progress) = false
is_settled (installing v) = false
is_settled _ = true

module _ {V F E : Type 0} (versions : Versions V E) (current : V) where
  pub record Holds (version : V) (status : UpdateStatus V F E) (task : Option (PollTask V F E))
      : Type 0 where
    pub keeps_version : version ≡ current
    pub status_newer : StatusIsNewer versions current status
    pub task_newer : TaskIsNewer versions current task
    pub settles : task ≡ none → is_settled status ≡ true

  abbrev pub Invariant : Updater V F E → Type 0
  Invariant u = Holds u.current_version u.status u.pending_poll

  -- While a part of the task is left, nothing is asked of the status but its version.
  pub Holds-running :
      {version : V} {status : UpdateStatus V F E} {task : PollTask V F E}
      → version ≡ current
      → StatusIsNewer versions current status
      → TaskIsNewer versions current (some task)
      → Holds version status (some task)
  Holds-running c s t = record {
    keeps_version = c;
    status_newer = s;
    task_newer = t;
    settles = λ e. cc;
  }

  pub Holds-settled :
      {version : V} {status : UpdateStatus V F E} {task : Option (PollTask V F E)}
      → version ≡ current
      → StatusIsNewer versions current status
      → TaskIsNewer versions current task
      → is_settled status ≡ true
      → Holds version status task
  Holds-settled c s t e = record {
    keeps_version = c;
    status_newer = s;
    task_newer = t;
    settles = λ p. e;
  }

  pub Invariant-poll :
      (u : Updater V F E) (check_type : UpdateCheckType)
      → Invariant u
      → Invariant (poll u check_type)
  unfolding poll
  Invariant-poll u automatic i =
      if-both Invariant (is_pending u.pending_poll)
        (if-both Invariant (is_manual u.update_check_type) i i)
        (Holds-running i.keeps_version i.status_newer tt)
  Invariant-poll u manual i =
      if-both Invariant (is_pending u.pending_poll)
        (if-both Invariant (is_manual u.update_check_type) i i)
        (Holds-running i.keeps_version i.status_newer tt)

  pub Invariant-dismiss : (u : Updater V F E) → Invariant u → Invariant (dismiss u).0
  unfolding dismiss
  Invariant-dismiss u i =
      if-both {A = Updater V F E × Bool} (λ r. Invariant r.0) (is_idle u.status) i
        (Holds-settled i.keeps_version tt i.task_newer refl)

  Invariant-failed_status :
      (u : Updater V F E) (check_type : UpdateCheckType) (error : E)
      → u.current_version ≡ current
      → Holds u.current_version (failed_status versions check_type error) none
  Invariant-failed_status u automatic error c =
      if-both (λ s. Holds u.current_version s none) (versions.is_missing_dependency error)
        (Holds-settled c tt tt refl) (Holds-settled c tt tt refl)
  Invariant-failed_status u manual error c = Holds-settled c tt tt refl

  pub Invariant-failed :
      (u : Updater V F E) (error : E)
      → u.current_version ≡ current
      → Invariant (finish versions u (err error))
  unfolding finish
  Invariant-failed u error = Invariant-failed_status u u.update_check_type error

  pub Invariant-start_update :
      (u : Updater V F E) (r : Result E (Unit {0}))
      → Invariant u
      → Invariant (start_update versions u r)
  unfolding start_update
  Invariant-start_update u (err error) i = Invariant-failed u error i.keeps_version
  Invariant-start_update u (ok tt) i = Holds-running i.keeps_version tt i.status_newer
