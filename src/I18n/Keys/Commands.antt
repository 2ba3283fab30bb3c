-- ===== src/I18n/Keys/Commands.antt =====
-- internal/i18n/messages.go: keys of the messages of the device flow and the commands.
use scuffinger.I18n.{Key}

abbrev pub msg_auth_device_prompt : Key
msg_auth_device_prompt = "auth.device_prompt"

abbrev pub msg_auth_polling : Key
msg_auth_polling = "auth.polling"

abbrev pub msg_auth_success : Key
msg_auth_success = "auth.success"

abbrev pub msg_auth_logged_out : Key
msg_auth_logged_out = "auth.logged_out"

abbrev pub msg_auth_status_logged_in : Key
msg_auth_status_logged_in = "auth.status_logged_in"

abbrev pub msg_auth_status_no_token : Key
msg_auth_status_no_token = "auth.status_no_token"

abbrev pub msg_auth_token_from_vault : Key
msg_auth_token_from_vault = "auth.token_from_vault"

abbrev pub err_auth_no_client_id : Key
err_auth_no_client_id = "err.auth.no_client_id"

abbrev pub err_auth_device_code : Key
err_auth_device_code = "err.auth.device_code"

abbrev pub err_auth_poll : Key
err_auth_poll = "err.auth.poll"

abbrev pub err_auth_save_token : Key
err_auth_save_token = "err.auth.save_token"

abbrev pub err_auth_verify_token : Key
err_auth_verify_token = "err.auth.verify_token"

abbrev pub cmd_root_short : Key
cmd_root_short = "cmd.root.short"

abbrev pub cmd_root_long : Key
cmd_root_long = "cmd.root.long"

abbrev pub cmd_version_short : Key
cmd_version_short = "cmd.version.short"

abbrev pub cmd_version_long : Key
cmd_version_long = "cmd.version.long"

abbrev pub cmd_serve_short : Key
cmd_serve_short = "cmd.serve.short"

abbrev pub cmd_serve_long : Key
cmd_serve_long = "cmd.serve.long"

abbrev pub cmd_github_short : Key
cmd_github_short = "cmd.github.short"

abbrev pub cmd_github_long : Key
cmd_github_long = "cmd.github.long"

abbrev pub cmd_github_auth_short : Key
cmd_github_auth_short = "cmd.github_auth.short"

abbrev pub cmd_github_auth_long : Key
cmd_github_auth_long = "cmd.github_auth.long"

abbrev pub cmd_github_status_short : Key
cmd_github_status_short = "cmd.github_status.short"

abbrev pub cmd_github_status_long : Key
cmd_github_status_long = "cmd.github_status.long"

abbrev pub cmd_github_logout_short : Key
cmd_github_logout_short = "cmd.github_logout.short"

abbrev pub cmd_github_logout_long : Key
cmd_github_logout_long = "cmd.github_logout.long"

abbrev pub cmd_github_monitor_short : Key
cmd_github_monitor_short = "cmd.github_monitor.short"

abbrev pub cmd_github_monitor_long : Key
cmd_github_monitor_long = "cmd.github_monitor.long"

abbrev pub cmd_flag_config : Key
cmd_flag_config = "cmd.flag.config"
