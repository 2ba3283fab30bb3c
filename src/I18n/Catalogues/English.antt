-- ===== src/I18n/Catalogues/English.antt =====
-- internal/i18n/en.go: the English catalogue.
use scuffinger.Prelude.{[], ◌∷◌}
use scuffinger.I18n.{Messages}
use scuffinger.I18n.Keys

unfoldable pub english : Messages
english =
    (Keys.msg_config_loaded, "Configuration loaded")
    ∷ (Keys.err_config_load, "Failed to load configuration")
    ∷ (Keys.msg_bootstrap_connecting, "Connecting to backing services")
    ∷ (Keys.msg_bootstrap_self_tests, "Running startup self-tests")
    ∷ (Keys.msg_bootstrap_tests_passed, "All self-tests passed")
    ∷ (Keys.msg_bootstrap_health_start, "Periodic health checks started")
    ∷ (Keys.err_bootstrap_connect, "Unable to connect to required services")
    ∷ (Keys.err_bootstrap_self_tests, "Startup self-tests failed")
    ∷ (Keys.msg_manager_connecting, "Connecting to service")
    ∷ (Keys.msg_manager_connected, "Connected to service")
    ∷ (Keys.msg_manager_self_test, "Running self-test")
    ∷ (Keys.msg_manager_self_test_passed, "Self-test passed")
    ∷ (Keys.msg_manager_closing, "Shutting down services")
    ∷ (Keys.warn_manager_health_failed, "Health check failed")
    ∷ (Keys.err_manager_connect, "Failed to connect to service")
    ∷ (Keys.err_manager_self_test, "Self-test failed for service")
    ∷ (Keys.err_manager_close, "Error closing service")
    ∷ (Keys.err_manager_shutdown, "Errors occurred during shutdown")
    ∷ (Keys.msg_cache_self_test_init, "Setting init key with current timestamp")
    ∷ (Keys.msg_cache_self_test_passed, "Cache self-test passed")
    ∷ (Keys.err_cache_ping, "Cache is not reachable")
    ∷ (Keys.err_cache_set_init, "Failed to write init key to cache")
    ∷ (Keys.err_cache_get_init, "Failed to read init key from cache")
    ∷ (Keys.err_cache_init_mismatch, "Cache init value mismatch")
    ∷ (Keys.msg_db_creating_test_db, "Creating temporary test database")
    ∷ (Keys.msg_db_running_crud, "Running CRUD verification")
    ∷ (Keys.msg_db_self_test_passed, "Database self-test passed")
    ∷ (Keys.warn_db_drop_test_failed, "Could not drop test database (will retry on next start)")
    ∷ (Keys.err_db_connect, "Database is not reachable")
    ∷ (Keys.err_db_ping, "Database did not respond to ping")
    ∷ (Keys.err_db_create_testdb, "Failed to create test database")
    ∷ (Keys.err_db_connect_testdb, "Failed to connect to test database")
    ∷ (Keys.err_db_crud, "Database CRUD verification failed")
    ∷ (Keys.err_db_create_table, "Failed to create test table")
    ∷ (Keys.err_db_insert, "Failed to insert test record")
    ∷ (Keys.err_db_read, "Failed to read test record")
    ∷ (Keys.err_db_read_mismatch, "Test record value does not match expected")
    ∷ (Keys.err_db_update, "Failed to update test record")
    ∷ (Keys.err_db_read_after_update, "Failed to read test record after update")
    ∷ (Keys.err_db_update_mismatch, "Updated test record value does not match expected")
    ∷ (Keys.msg_server_starting, "HTTP server starting")
    ∷ (Keys.msg_server_shutdown, "Shutting down HTTP server")
    ∷ (Keys.msg_server_stopped, "HTTP server stopped gracefully")
    ∷ (Keys.msg_server_routes, "Routes registered")
    ∷ (Keys.err_server_listen, "HTTP server encountered an error")
    ∷ (Keys.err_server_shutdown, "HTTP server was forced to shut down")
    ∷ (Keys.msg_health_ready, "All services healthy")
    ∷ (Keys.msg_health_not_ready, "One or more services are not ready")
    ∷ (Keys.msg_gh_connecting, "Connecting to GitHub API")
    ∷ (Keys.msg_gh_connected, "Connected to GitHub API")
    ∷ (Keys.msg_gh_auth_token, "Authenticating with personal access token")
    ∷ (Keys.msg_gh_auth_app, "Authenticating as GitHub App")
    ∷ (Keys.msg_gh_self_test_passed, "GitHub self-test passed")
    ∷ (Keys.msg_gh_rate_remaining, "GitHub API rate limit status")
    ∷ (Keys.warn_gh_rate_low, "GitHub API rate limit is running low")
    ∷ (Keys.err_gh_not_configured, "GitHub is not configured — set a token or app credentials")
    ∷ (Keys.err_gh_auth, "GitHub authentication failed")
    ∷ (Keys.err_gh_read_key, "Failed to read GitHub App private key file")
    ∷ (Keys.err_gh_parse_key, "Failed to parse GitHub App private key")
    ∷ (Keys.err_gh_install_token, "Failed to obtain GitHub App installation token")
    ∷ (Keys.err_gh_self_test, "GitHub self-test failed")
    ∷ (Keys.err_gh_rate_limit, "GitHub API rate limit too low")
    ∷ (Keys.err_gh_fetch_user, "Failed to fetch GitHub user")
    ∷ (Keys.err_gh_fetch_org, "Failed to fetch GitHub organization")
    ∷ (Keys.err_gh_fetch_repo, "Failed to fetch GitHub repository")
    ∷ (Keys.err_gh_fetch_branches, "Failed to fetch repository branches")
    ∷ (Keys.err_gh_fetch_workflows, "Failed to fetch repository workflows")
    ∷ (Keys.err_gh_fetch_runs, "Failed to fetch workflow runs")
    ∷ (Keys.err_gh_fetch_rate_limit, "Failed to fetch GitHub rate limit")
    ∷ (Keys.err_gh_invalid_workflow, "Invalid workflow ID")
    ∷ (Keys.msg_gh_collector_starting, "GitHub repository collector starting")
    ∷ (Keys.msg_gh_collector_tick, "Running GitHub collection cycle")
    ∷ (Keys.msg_gh_collector_repo, "Collecting data for repository")
    ∷ (Keys.msg_gh_collector_stopped, "GitHub repository collector stopped")
    ∷ (Keys.msg_gh_collector_passed, "GitHub collector self-test passed")
    ∷ (Keys.msg_gh_collector_annotations, "Collected annotations for failed job")
    ∷ (Keys.msg_gh_collector_lock_acquired, "Acquired collection lock for repository")
    ∷ (Keys.msg_gh_collector_lock_skipped, "Skipped repository (another instance holds the lock)")
    ∷ (Keys.warn_gh_collector_lock_error, "Failed to acquire distributed lock (proceeding anyway)")
    ∷ (Keys.err_gh_collector_fetch_repo, "Failed to fetch repository metadata")
    ∷ (Keys.err_gh_collector_fetch_runs, "Failed to fetch workflow runs")
    ∷ (Keys.err_gh_collector_fetch_jobs, "Failed to fetch workflow jobs")
    ∷ (Keys.err_gh_collector_fetch_annotations, "Failed to fetch check-run annotations")
    ∷ (Keys.err_gh_collector_no_repos, "No repositories configured for monitoring")
    ∷ (Keys.err_gh_collector_parse_repo, "Invalid repository format (expected owner/repo)")
    ∷ (Keys.msg_auth_device_prompt, "Enter the code at the URL to authenticate")
    ∷ (Keys.msg_auth_polling, "Waiting for GitHub authorisation…")
    ∷ (Keys.msg_auth_success, "Successfully authenticated with GitHub")
    ∷ (Keys.msg_auth_logged_out, "GitHub credentials removed")
    ∷ (Keys.msg_auth_status_logged_in, "Logged in to GitHub")
    ∷ (
      Keys.msg_auth_status_no_token, "Not logged in — run 'scuffinger github auth' to authenticate",
    )
    ∷ (Keys.msg_auth_token_from_vault, "Using GitHub token from system vault")
    ∷ (Keys.err_auth_no_client_id, "github.client_id must be set in config for OAuth login")
    ∷ (Keys.err_auth_device_code, "Failed to initiate GitHub device flow")
    ∷ (Keys.err_auth_poll, "Failed to complete GitHub authorisation")
    ∷ (Keys.err_auth_save_token, "Failed to save token to system vault")
    ∷ (Keys.err_auth_verify_token, "Stored token is no longer valid")
    ∷ (Keys.cmd_root_short, "Scuffinger — a lightweight GitHub monitoring service")
    ∷ (
      Keys.cmd_root_long,
      "Scuffinger is a lightweight service for monitoring GitHub repositories, workflows, and metrics. Built with Cobra, Viper, and Gin.",
    )
    ∷ (Keys.cmd_version_short, "Print the version number")
    ∷ (
      Keys.cmd_version_long,
      "Displays the current version of the scuffinger application, including build information when available.",
    )
    ∷ (Keys.cmd_serve_short, "Start the HTTP server")
    ∷ (
      Keys.cmd_serve_long,
      "Starts the Gin HTTP server with health checks, Prometheus metrics, and GitHub API endpoints. The server connects to all configured backing services on startup.",
    )
    ∷ (Keys.cmd_github_short, "GitHub authentication and status")
    ∷ (
      Keys.cmd_github_long,
      "Manage GitHub OAuth authentication. Use subcommands to log in via device flow, check authentication status, or remove stored credentials.",
    )
    ∷ (Keys.cmd_github_auth_short, "Authenticate with GitHub using OAuth")
    ∷ (
      Keys.cmd_github_auth_long,
      "Starts the GitHub OAuth device flow. You will be given a one-time code to enter at github.com/login/device. Once authorised, the token is stored securely in the system vault (Keychain on macOS, Credential Manager on Windows, or ~/.scuffinger/ on Linux).",
    )
    ∷ (Keys.cmd_github_status_short, "Show current authentication status")
    ∷ (
      Keys.cmd_github_status_long,
      "Displays the current GitHub authentication status, including whether credentials are stored in the config file, environment, or system vault.",
    )
    ∷ (Keys.cmd_github_logout_short, "Remove stored GitHub credentials")
    ∷ (
      Keys.cmd_github_logout_long,
      "Removes any GitHub OAuth tokens stored in the system vault. Does not affect tokens configured via config file or environment variables.",
    )
    ∷ (Keys.cmd_github_monitor_short, "Start the GitHub repository collector")
    ∷ (
      Keys.cmd_github_monitor_long,
      "Starts the background GitHub collector that periodically fetches repository metadata, workflow runs, and job step timings. Exposes health and Prometheus metrics endpoints but no API proxy routes. Designed to run as a separate process alongside the API server.",
    )
    ∷ (Keys.cmd_flag_config, "Path to config file")
    ∷ []
