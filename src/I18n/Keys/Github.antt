-- ===== src/I18n/Keys/Github.antt =====
-- internal/i18n/messages.go: keys of the messages of the GitHub service and its collector.
use scuffinger.I18n.{Key}

abbrev pub msg_gh_connecting : Key
msg_gh_connecting = "gh.connecting"

abbrev pub msg_gh_connected : Key
msg_gh_connected = "gh.connected"

abbrev pub msg_gh_auth_token : Key
msg_gh_auth_token = "gh.auth_token"

abbrev pub msg_gh_auth_app : Key
msg_gh_auth_app = "gh.auth_app"

abbrev pub msg_gh_self_test_passed : Key
msg_gh_self_test_passed = "gh.self_test_passed"

abbrev pub msg_gh_rate_remaining : Key
msg_gh_rate_remaining = "gh.rate_remaining"

abbrev pub warn_gh_rate_low : Key
warn_gh_rate_low = "gh.rate_low"

abbrev pub err_gh_install_token : Key
err_gh_install_token = "err.gh.install_token"

abbrev pub err_gh_self_test : Key
err_gh_self_test = "err.gh.self_test"

abbrev pub msg_gh_collector_starting : Key
msg_gh_collector_starting = "gh_collector.starting"

abbrev pub msg_gh_collector_tick : Key
msg_gh_collector_tick = "gh_collector.tick"

abbrev pub msg_gh_collector_repo : Key
msg_gh_collector_repo = "gh_collector.repo"

abbrev pub msg_gh_collector_stopped : Key
msg_gh_collector_stopped = "gh_collector.stopped"

abbrev pub msg_gh_collector_passed : Key
msg_gh_collector_passed = "gh_collector.self_test_passed"

abbrev pub msg_gh_collector_annotations : Key
msg_gh_collector_annotations = "gh_collector.annotations"

abbrev pub err_gh_collector_fetch_jobs : Key
err_gh_collector_fetch_jobs = "err.gh_collector.fetch_jobs"

abbrev pub err_gh_collector_fetch_annotations : Key
err_gh_collector_fetch_annotations = "err.gh_collector.fetch_annotations"

abbrev pub msg_gh_collector_lock_acquired : Key
msg_gh_collector_lock_acquired = "gh_collector.lock_acquired"

abbrev pub msg_gh_collector_lock_skipped : Key
msg_gh_collector_lock_skipped = "gh_collector.lock_skipped"

abbrev pub warn_gh_collector_lock_error : Key
warn_gh_collector_lock_error = "gh_collector.lock_error"
