-- ===== src/Updater/Tasks.antt =====
-- The parts of the task of a poll keep the invariant of the updater.
use zaku.Prelude.{◌≡◌, refl, true, Option, none, some, Result, ok, err, arith}
use zaku.Updater.{
  UpdateStatus, idle, checking, downloading, installing, updated, failed, fetching_asset, Updater,
  Versions, check_if_newer, version_to_beat, kept_status, finish, start_download, release_fetched,
  report_progress, is_downloading, downloaded, installed,
}
use zaku.Updater.Invariant.{
  IsNewer, StatusIsNewer, TaskIsNewer, is_settled, Holds, Invariant, Holds-running, Holds-settled,
  Invariant-failed,
}

module _ {V F E : Type 0} (versions : Versions V E) (current : V) where
  -- The version that a fetched one is measured against is the current one or a later one.
  IsNewer-current :
      (previous : UpdateStatus V F E) (v : V)
      → StatusIsNewer versions current previous
      → IsNewer versions (version_to_beat current previous) v
      → IsNewer versions current v
  IsNewer-current (updated w) v p (s, g) = (
    s,
    ground (
      arith,
      versions.order.cmp_reversed v w,
      versions.order.cmp_reversed w current,
      versions.order.cmp_reversed v current,
      versions.order.cmp_trans current w v,
    ),
  )
  IsNewer-current idle v p n = n
  IsNewer-current checking v p n = n
  IsNewer-current (downloading w f) v p n = n
  IsNewer-current (installing w) v p n = n
  IsNewer-current (failed error) v p n = n

  StatusIsNewer-kept :
      (previous : UpdateStatus V F E)
      → StatusIsNewer versions current previous
      → StatusIsNewer versions current (kept_status previous)
        × (is_settled (kept_status previous) ≡ true)
  StatusIsNewer-kept (updated v) n = (n, refl)
  StatusIsNewer-kept idle n = (tt, refl)
  StatusIsNewer-kept checking n = (tt, refl)
  StatusIsNewer-kept (downloading v f) n = (tt, refl)
  StatusIsNewer-kept (installing v) n = (tt, refl)
  StatusIsNewer-kept (failed error) n = (tt, refl)

  -- What the comparison lets through comes after the version to beat.
  check_if_newer-IsNewer :
      (status : UpdateStatus V F E) (fetched newer : V)
      → check_if_newer versions current fetched status ≡ ok (some newer)
      → IsNewer versions (version_to_beat current status) newer
  unfolding check_if_newer
  check_if_newer-IsNewer status fetched newer h = ground arith

  Invariant-start_download :
      (u : Updater V F E) (previous : UpdateStatus V F E) (r : Result E (Option V))
      → u.current_version ≡ current
      → StatusIsNewer versions current previous
      → ((newer : V)
          → r ≡ ok (some newer)
          → IsNewer versions (version_to_beat current previous) newer)
      → Invariant versions current (start_download versions u previous r)
  unfolding start_download finish
  Invariant-start_download u previous (err error) c p n =
      Invariant-failed versions current u error c
  Invariant-start_download u previous (ok none) c p n =
      let k = StatusIsNewer-kept previous p in Holds-settled versions current c k.0 tt k.1
  Invariant-start_download u previous (ok (some newer)) c p n =
      let m = n newer refl in
      let w = IsNewer-current previous newer p m in Holds-running versions current c w (w, m)

  pub Invariant-release_fetched :
      (u : Updater V F E) (previous : UpdateStatus V F E) (r : Result E V)
      → u.current_version ≡ current
      → StatusIsNewer versions current previous
      → Invariant versions current (release_fetched versions u previous r)
  unfolding release_fetched
  Invariant-release_fetched u previous (err error) c p =
      Invariant-start_download u previous (err error) c p (λ newer e. cc)
  Invariant-release_fetched u previous (ok fetched) c p =
      Invariant-start_download u previous
        (check_if_newer versions u.current_version fetched previous) c p
        (λ newer e. check_if_newer-IsNewer previous fetched newer (rw (← c) e))

  Holds-progress :
      (u : Updater V F E) (progress : Option F) (status : UpdateStatus V F E)
      → Invariant versions current u
      → Holds versions current u.current_version status u.pending_poll
      → Invariant versions current (elim (is_downloading status) [
        | none ↦ u
        | some version ↦ record u { status = downloading version progress }
      ])
  Holds-progress u progress (downloading version f) i h = record {
    keeps_version = h.keeps_version;
    status_newer = h.status_newer;
    task_newer = h.task_newer;
    settles = h.settles;
  }
  Holds-progress u progress idle i h = i
  Holds-progress u progress checking i h = i
  Holds-progress u progress (installing v) i h = i
  Holds-progress u progress (updated v) i h = i
  Holds-progress u progress (failed v) i h = i

  pub Invariant-report_progress :
      (u : Updater V F E) (progress : Option F)
      → Invariant versions current u
      → Invariant versions current (report_progress u progress)
  unfolding report_progress
  Invariant-report_progress u progress i = Holds-progress u progress u.status i i

  pub Invariant-downloaded :
      (u : Updater V F E) (previous : UpdateStatus V F E) (newer : V) (r : Result E (Unit {0}))
      → u.current_version ≡ current
      → TaskIsNewer versions current (some (fetching_asset previous newer))
      → Invariant versions current (downloaded versions u previous newer r)
  unfolding downloaded
  Invariant-downloaded u previous newer (err error) c t =
      Invariant-failed versions current u error c
  Invariant-downloaded u previous newer (ok done) c t = Holds-running versions current c t.0 t

  pub Invariant-installed :
      (u : Updater V F E) (newer : V) (r : Result E (Unit {0}))
      → u.current_version ≡ current
      → IsNewer versions current newer
      → Invariant versions current (installed versions u newer r)
  unfolding installed finish
  Invariant-installed u newer (err error) c n = Invariant-failed versions current u error c
  Invariant-installed u newer (ok done) c n = Holds-settled versions current c n tt refl
