-- ===== src/I18n/Keys.antt =====
-- internal/i18n/messages.go: every key that the constants declare, in their order.
mod Startup
mod Github
mod Commands
pub use Startup.*
pub use Github.*
pub use Commands.*
use scuffinger.Prelude.{List, [], ◌∷◌}
use scuffinger.I18n.{Key}
pub use scuffinger.I18n.{
  err_bootstrap_connect, err_bootstrap_self_tests, err_manager_connect, err_manager_self_test,
  err_manager_close, err_manager_shutdown, err_cache_ping, err_cache_set_init, err_cache_get_init,
  err_cache_init_mismatch, err_db_connect, err_db_ping, err_db_create_testdb, err_db_connect_testdb,
  err_db_crud, err_db_create_table, err_db_insert, err_db_read, err_db_read_mismatch, err_db_update,
  err_db_read_after_update, err_db_update_mismatch, err_gh_not_configured, err_gh_auth,
  err_gh_read_key, err_gh_parse_key, err_gh_rate_limit, err_gh_fetch_user, err_gh_fetch_org,
  err_gh_fetch_repo, err_gh_fetch_branches, err_gh_fetch_workflows, err_gh_fetch_runs,
  err_gh_fetch_rate_limit, err_gh_invalid_workflow, err_gh_collector_fetch_repo,
  err_gh_collector_fetch_runs, err_gh_collector_no_repos, err_gh_collector_parse_repo,
}

-- the keys of the constants
unfoldable pub all_keys : List Key
all_keys =
    msg_config_loaded ∷ err_config_load ∷ msg_bootstrap_connecting ∷ msg_bootstrap_self_tests
    ∷ msg_bootstrap_tests_passed ∷ msg_bootstrap_health_start ∷ err_bootstrap_connect
    ∷ err_bootstrap_self_tests ∷ msg_manager_connecting ∷ msg_manager_connected
    ∷ msg_manager_self_test ∷ msg_manager_self_test_passed ∷ msg_manager_closing
    ∷ warn_manager_health_failed ∷ err_manager_connect ∷ err_manager_self_test ∷ err_manager_close
    ∷ err_manager_shutdown ∷ msg_cache_self_test_init ∷ msg_cache_self_test_passed ∷ err_cache_ping
    ∷ err_cache_set_init ∷ err_cache_get_init ∷ err_cache_init_mismatch ∷ msg_db_creating_test_db
    ∷ msg_db_running_crud ∷ msg_db_self_test_passed ∷ warn_db_drop_test_failed ∷ err_db_connect
    ∷ err_db_ping ∷ err_db_create_testdb ∷ err_db_connect_testdb ∷ err_db_crud ∷ err_db_create_table
    ∷ err_db_insert ∷ err_db_read ∷ err_db_read_mismatch ∷ err_db_update ∷ err_db_read_after_update
    ∷ err_db_update_mismatch ∷ msg_server_starting ∷ msg_server_shutdown ∷ msg_server_stopped
    ∷ msg_server_routes ∷ err_server_listen ∷ err_server_shutdown ∷ msg_health_ready
    ∷ msg_health_not_ready ∷ msg_gh_connecting ∷ msg_gh_connected ∷ msg_gh_auth_token
    ∷ msg_gh_auth_app ∷ msg_gh_self_test_passed ∷ msg_gh_rate_remaining ∷ warn_gh_rate_low
    ∷ err_gh_not_configured ∷ err_gh_auth ∷ err_gh_read_key ∷ err_gh_parse_key
    ∷ err_gh_install_token ∷ err_gh_self_test ∷ err_gh_rate_limit ∷ err_gh_fetch_user
    ∷ err_gh_fetch_org ∷ err_gh_fetch_repo ∷ err_gh_fetch_branches ∷ err_gh_fetch_workflows
    ∷ err_gh_fetch_runs ∷ err_gh_fetch_rate_limit ∷ err_gh_invalid_workflow
    ∷ msg_gh_collector_starting ∷ msg_gh_collector_tick ∷ msg_gh_collector_repo
    ∷ msg_gh_collector_stopped ∷ msg_gh_collector_passed ∷ msg_gh_collector_annotations
    ∷ err_gh_collector_fetch_repo ∷ err_gh_collector_fetch_runs ∷ err_gh_collector_fetch_jobs
    ∷ err_gh_collector_fetch_annotations ∷ msg_gh_collector_lock_acquired
    ∷ msg_gh_collector_lock_skipped ∷ warn_gh_collector_lock_error ∷ err_gh_collector_no_repos
    ∷ err_gh_collector_parse_repo ∷ msg_auth_device_prompt ∷ msg_auth_polling ∷ msg_auth_success
    ∷ msg_auth_logged_out ∷ msg_auth_status_logged_in ∷ msg_auth_status_no_token
    ∷ msg_auth_token_from_vault ∷ err_auth_no_client_id ∷ err_auth_device_code ∷ err_auth_poll
    ∷ err_auth_save_token ∷ err_auth_verify_token ∷ cmd_root_short ∷ cmd_root_long
    ∷ cmd_version_short ∷ cmd_version_long ∷ cmd_serve_short ∷ cmd_serve_long ∷ cmd_github_short
    ∷ cmd_github_long ∷ cmd_github_auth_short ∷ cmd_github_auth_long ∷ cmd_github_status_short
    ∷ cmd_github_status_long ∷ cmd_github_logout_short ∷ cmd_github_logout_long
    ∷ cmd_github_monitor_short ∷ cmd_github_monitor_long ∷ cmd_flag_config ∷ []
