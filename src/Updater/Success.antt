-- ===== src/Updater/Success.antt =====
-- An update from the poll to its end, when all answers are good.
use zaku.Prelude.{ok}
use zaku.Updater.{UpdateCheckType, Updater, Versions, poll, start_update, release_fetched}

module _ {V F E : Type 0} (versions : Versions V E) where
  -- A poll and the answers to its task up to the release's.
  abbrev started : UpdateCheckType → Updater V F E → Updater V F E
  started check_type u = start_update versions (poll u check_type) (ok tt)

  abbrev found : UpdateCheckType → V → Updater V F E → Updater V F E
  found check_type newer u =
      release_fetched versions (started check_type u) (poll u check_type).status (ok newer)
