-- ===== src/Updater/Failure.antt =====
-- What an automatic check leaves of an update that is installed and waits for a restart.
use zaku.Prelude.{◌≡◌, refl, ap, true, false, none, some, Result, ok, err, ◌∙◌}
use zaku.Updater.{
  UpdateStatus, idle, downloading, updated, kept_status, version_to_beat, automatic, spawned,
  Updater, Versions, poll, finish, start_update, start_download, release_fetched, is_newer,
  check_if_newer,
}
use zaku.Updater.Invariant.{IsNewer}

module _ {V F E : Type 0} (versions : Versions V E) where
  poll_automatic :
      (u : Updater V F E)
      → u.pending_poll ≡ none
      → poll u automatic ≡ record u { update_check_type = automatic; pending_poll = some spawned }
  unfolding poll
  poll_automatic u h = simp h

  -- An automatic check from the timer to the answer of the server.
  abbrev pub check_automatically : Updater V F E → Result E V → Updater V F E
  check_automatically u answer =
      release_fetched versions (start_update versions (poll u automatic) (ok tt)) u.status answer

  check_automatically-error :
      (u : Updater V F E) (error : E)
      → u.pending_poll ≡ none
      → versions.is_missing_dependency error ≡ false
      → check_automatically u (err error)
        ≡ record u { status = idle; update_check_type = automatic; pending_poll = none }
  unfolding release_fetched start_update start_download finish
  check_automatically-error u error h m = simp (poll_automatic u h, m)

  check_automatically-newer :
      (u : Updater V F E) (v : V)
      → u.pending_poll ≡ none
      → check_if_newer versions u.current_version v u.status ≡ ok (some v)
      → (check_automatically u (ok v)).status ≡ downloading v none
  unfolding release_fetched start_update start_download
  check_automatically-newer u v h c = simp (poll_automatic u h, c)

  check_automatically-known :
      (u : Updater V F E) (v : V)
      → u.pending_poll ≡ none
      → check_if_newer versions u.current_version v u.status ≡ ok none
      → (check_automatically u (ok v)).status ≡ kept_status u.status
  unfolding release_fetched start_update start_download finish
  check_automatically-known u v h c = simp (poll_automatic u h, c)

  pub check_if_newer-newer :
      (current v : V) (status : UpdateStatus V F E)
      → IsNewer versions (version_to_beat current status) v
      → check_if_newer versions current v status ≡ ok (some v)
  unfolding check_if_newer
  check_if_newer-newer current v status (s, n) = simp (s, is_newer, n)

  check_if_newer-same :
      (current v : V) (status : UpdateStatus V F E)
      → versions.is_stable v ≡ true
      → status ≡ updated v
      → check_if_newer versions current v status ≡ ok none
  unfolding check_if_newer
  check_if_newer-same current v status s e =
      simp (s, e, is_newer, (versions.order.cmp_eq v v).1 refl)

  -- The application runs `current_version` and `v`, a stable version after it, is installed and
  -- waits for a restart; no task runs. An automatic check that the server answers with `v` keeps the
  -- status. One that fails, of an error that is no missing dependency, forgets that `v` is
  -- installed: the status is idle, and the next automatic check downloads `v` again.
  pub check_automatically-forgets :
      (u : Updater V F E) (v : V) (error : E)
      → u.pending_poll ≡ none
      → u.status ≡ updated v
      → IsNewer versions u.current_version v
      → versions.is_missing_dependency error ≡ false
      → ((check_automatically u (ok v)).status ≡ updated v)
        × ((check_automatically u (err error)).status ≡ idle)
        × ((check_automatically (check_automatically u (err error)) (ok v)).status
            ≡ downloading v none)
  check_automatically-forgets u v error h s n m = (
    check_automatically-known u v h (check_if_newer-same u.current_version v u.status n.0 s)
        ∙ ap kept_status s,
    ap (λ w. w.status) (check_automatically-error u error h m),
    rw (check_automatically-error u error h m) (
        check_automatically-newer
          (record u { status = idle; update_check_type = automatic; pending_poll = none }) v refl
          (check_if_newer-newer u.current_version v idle n)),
  )
