-- ===== src/I18n/Catalogues/Swedish.antt =====
-- internal/i18n/sv.go: the Swedish catalogue.
use scuffinger.Prelude.{[], ◌∷◌}
use scuffinger.I18n.{Messages}
use scuffinger.I18n.Keys

unfoldable pub swedish : Messages
swedish =
    (Keys.msg_config_loaded, "Konfiguration laddad")
    ∷ (Keys.err_config_load, "Kunde inte ladda konfiguration")
    ∷ (Keys.msg_bootstrap_connecting, "Ansluter till bakgrundstjänster")
    ∷ (Keys.msg_bootstrap_self_tests, "Kör uppstartstester")
    ∷ (Keys.msg_bootstrap_tests_passed, "Alla uppstartstester godkända")
    ∷ (Keys.msg_bootstrap_health_start, "Periodiska hälsokontroller startade")
    ∷ (Keys.err_bootstrap_connect, "Kunde inte ansluta till nödvändiga tjänster")
    ∷ (Keys.err_bootstrap_self_tests, "Uppstartstester misslyckades")
    ∷ (Keys.msg_manager_connecting, "Ansluter till tjänst")
    ∷ (Keys.msg_manager_connected, "Ansluten till tjänst")
    ∷ (Keys.msg_manager_self_test, "Kör självtest")
    ∷ (Keys.msg_manager_self_test_passed, "Självtest godkänt")
    ∷ (Keys.msg_manager_closing, "Stänger tjänster")
    ∷ (Keys.warn_manager_health_failed, "Hälsokontroll misslyckades")
    ∷ (Keys.err_manager_connect, "Kunde inte ansluta till tjänst")
    ∷ (Keys.err_manager_self_test, "Självtest misslyckades för tjänst")
    ∷ (Keys.err_manager_close, "Fel vid stängning av tjänst")
    ∷ (Keys.err_manager_shutdown, "Fel uppstod under avstängning")
    ∷ (Keys.msg_cache_self_test_init, "Sätter init-nyckel med aktuell tidsstämpel")
    ∷ (Keys.msg_cache_self_test_passed, "Cache-självtest godkänt")
    ∷ (Keys.err_cache_ping, "Cache är inte nåbar")
    ∷ (Keys.err_cache_set_init, "Kunde inte skriva init-nyckel till cache")
    ∷ (Keys.err_cache_get_init, "Kunde inte läsa init-nyckel från cache")
    ∷ (Keys.err_cache_init_mismatch, "Cache init-värde stämmer inte överens")
    ∷ (Keys.msg_db_creating_test_db, "Skapar tillfällig testdatabas")
    ∷ (Keys.msg_db_running_crud, "Kör CRUD-verifiering")
    ∷ (Keys.msg_db_self_test_passed, "Databas-självtest godkänt")
    ∷ (
      Keys.warn_db_drop_test_failed,
      "Kunde inte ta bort testdatabas (försöker igen vid nästa start)",
    )
    ∷ (Keys.err_db_connect, "Databasen är inte nåbar")
    ∷ (Keys.err_db_ping, "Databasen svarade inte på ping")
    ∷ (Keys.err_db_create_testdb, "Kunde inte skapa testdatabas")
    ∷ (Keys.err_db_connect_testdb, "Kunde inte ansluta till testdatabas")
    ∷ (Keys.err_db_crud, "CRUD-verifiering av databas misslyckades")
    ∷ (Keys.err_db_create_table, "Kunde inte skapa testtabell")
    ∷ (Keys.err_db_insert, "Kunde inte infoga testpost")
    ∷ (Keys.err_db_read, "Kunde inte läsa testpost")
    ∷ (Keys.err_db_read_mismatch, "Testpostens värde stämmer inte med förväntat")
    ∷ (Keys.err_db_update, "Kunde inte uppdatera testpost")
    ∷ (Keys.err_db_read_after_update, "Kunde inte läsa testpost efter uppdatering")
    ∷ (Keys.err_db_update_mismatch, "Uppdaterat testpostvärde stämmer inte med förväntat")
    ∷ (Keys.msg_server_starting, "HTTP-server startar")
    ∷ (Keys.msg_server_shutdown, "Stänger HTTP-server")
    ∷ (Keys.msg_server_stopped, "HTTP-server stoppades korrekt")
    ∷ (Keys.msg_server_routes, "Rutter registrerade")
    ∷ (Keys.err_server_listen, "HTTP-server stötte på ett fel")
    ∷ (Keys.err_server_shutdown, "HTTP-server tvingades att stänga")
    ∷ (Keys.msg_health_ready, "Alla tjänster är friska")
    ∷ (Keys.msg_health_not_ready, "En eller flera tjänster är inte redo")
    ∷ (Keys.msg_gh_connecting, "Ansluter till GitHub API")
    ∷ (Keys.msg_gh_connected, "Ansluten till GitHub API")
    ∷ (Keys.msg_gh_auth_token, "Autentiserar med personlig åtkomsttoken")
    ∷ (Keys.msg_gh_auth_app, "Autentiserar som GitHub-app")
    ∷ (Keys.msg_gh_self_test_passed, "GitHub-självtest godkänt")
    ∷ (Keys.msg_gh_rate_remaining, "Status för GitHub API-hastighetsbegränsning")
    ∷ (Keys.warn_gh_rate_low, "GitHub API-hastighetsbegränsningen börjar ta slut")
    ∷ (Keys.err_gh_not_configured, "GitHub är inte konfigurerat — ange en token eller appuppgifter")
    ∷ (Keys.err_gh_auth, "GitHub-autentisering misslyckades")
    ∷ (Keys.err_gh_read_key, "Kunde inte läsa GitHub-appens privata nyckelfil")
    ∷ (Keys.err_gh_parse_key, "Kunde inte tolka GitHub-appens privata nyckel")
    ∷ (Keys.err_gh_install_token, "Kunde inte hämta GitHub-appens installationstoken")
    ∷ (Keys.err_gh_self_test, "GitHub-självtest misslyckades")
    ∷ (Keys.err_gh_rate_limit, "GitHub API-hastighetsbegränsning för låg")
    ∷ (Keys.err_gh_fetch_user, "Kunde inte hämta GitHub-användare")
    ∷ (Keys.err_gh_fetch_org, "Kunde inte hämta GitHub-organisation")
    ∷ (Keys.err_gh_fetch_repo, "Kunde inte hämta GitHub-förråd")
    ∷ (Keys.err_gh_fetch_branches, "Kunde inte hämta förrådsgrenar")
    ∷ (Keys.err_gh_fetch_workflows, "Kunde inte hämta förrådsarbetsflöden")
    ∷ (Keys.err_gh_fetch_runs, "Kunde inte hämta arbetsflödeskörningar")
    ∷ (Keys.err_gh_fetch_rate_limit, "Kunde inte hämta GitHub-hastighetsbegränsning")
    ∷ (Keys.err_gh_invalid_workflow, "Ogiltigt arbetsflödes-ID")
    ∷ (Keys.msg_gh_collector_starting, "GitHub-förrådssamlare startar")
    ∷ (Keys.msg_gh_collector_tick, "Kör GitHub-insamlingscykel")
    ∷ (Keys.msg_gh_collector_repo, "Samlar in data för förråd")
    ∷ (Keys.msg_gh_collector_stopped, "GitHub-förrådssamlare stoppad")
    ∷ (Keys.msg_gh_collector_passed, "GitHub-samlare självtest godkänt")
    ∷ (Keys.msg_gh_collector_annotations, "Annotationer insamlade för misslyckat jobb")
    ∷ (Keys.msg_gh_collector_lock_acquired, "Insamlingslås anskaffat för förråd")
    ∷ (Keys.msg_gh_collector_lock_skipped, "Förråd överhoppat (en annan instans håller låset)")
    ∷ (Keys.warn_gh_collector_lock_error, "Kunde inte anskaffa distribuerat lås (fortsätter ändå)")
    ∷ (Keys.err_gh_collector_fetch_repo, "Kunde inte hämta förrådsmetadata")
    ∷ (Keys.err_gh_collector_fetch_runs, "Kunde inte hämta arbetsflödeskörningar")
    ∷ (Keys.err_gh_collector_fetch_jobs, "Kunde inte hämta arbetsflödesjobb")
    ∷ (Keys.err_gh_collector_fetch_annotations, "Kunde inte hämta check-run-annotationer")
    ∷ (Keys.err_gh_collector_no_repos, "Inga förråd konfigurerade för övervakning")
    ∷ (Keys.err_gh_collector_parse_repo, "Ogiltigt förrådsformat (förväntat: ägare/förråd)")
    ∷ (Keys.msg_auth_device_prompt, "Ange koden på URL:en för att autentisera")
    ∷ (Keys.msg_auth_polling, "Väntar på GitHub-auktorisering…")
    ∷ (Keys.msg_auth_success, "Framgångsrikt autentiserad med GitHub")
    ∷ (Keys.msg_auth_logged_out, "GitHub-uppgifter borttagna")
    ∷ (Keys.msg_auth_status_logged_in, "Inloggad på GitHub")
    ∷ (
      Keys.msg_auth_status_no_token,
      "Inte inloggad — kör 'scuffinger github auth' för att autentisera",
    )
    ∷ (Keys.msg_auth_token_from_vault, "Använder GitHub-token från systemvalvet")
    ∷ (
      Keys.err_auth_no_client_id,
      "github.client_id måste anges i konfigurationen för OAuth-inloggning",
    )
    ∷ (Keys.err_auth_device_code, "Kunde inte starta GitHub-enhetsflöde")
    ∷ (Keys.err_auth_poll, "Kunde inte slutföra GitHub-auktorisering")
    ∷ (Keys.err_auth_save_token, "Kunde inte spara token i systemvalvet")
    ∷ (Keys.err_auth_verify_token, "Lagrad token är inte längre giltig")
    ∷ (Keys.cmd_root_short, "Scuffinger — en lättviktig GitHub-övervakningstjänst")
    ∷ (
      Keys.cmd_root_long,
      "Scuffinger är en lättviktig tjänst för övervakning av GitHub-förråd, arbetsflöden och mätvärden. Byggd med Cobra, Viper och Gin.",
    )
    ∷ (Keys.cmd_version_short, "Visa versionsnummer")
    ∷ (
      Keys.cmd_version_long,
      "Visar aktuell version av scuffinger-applikationen, inklusive bygginformation om tillgänglig.",
    )
    ∷ (Keys.cmd_serve_short, "Starta HTTP-servern")
    ∷ (
      Keys.cmd_serve_long,
      "Startar Gin HTTP-servern med hälsokontroller, Prometheus-mätvärden och GitHub API-slutpunkter. Servern ansluter till alla konfigurerade bakgrundstjänster vid start.",
    )
    ∷ (Keys.cmd_github_short, "GitHub-autentisering och status")
    ∷ (
      Keys.cmd_github_long,
      "Hantera GitHub OAuth-autentisering. Använd underkommandon för att logga in via enhetsflöde, kontrollera autentiseringsstatus eller ta bort lagrade uppgifter.",
    )
    ∷ (Keys.cmd_github_auth_short, "Autentisera med GitHub via OAuth")
    ∷ (
      Keys.cmd_github_auth_long,
      "Startar GitHub OAuth-enhetsflödet. Du får en engångskod att ange på github.com/login/device. Efter auktorisering lagras token säkert i systemvalvet.",
    )
    ∷ (Keys.cmd_github_status_short, "Visa aktuell autentiseringsstatus")
    ∷ (
      Keys.cmd_github_status_long,
      "Visar aktuell GitHub-autentiseringsstatus, inklusive om uppgifter lagras i konfigurationsfilen, miljövariabler eller systemvalvet.",
    )
    ∷ (Keys.cmd_github_logout_short, "Ta bort lagrade GitHub-uppgifter")
    ∷ (
      Keys.cmd_github_logout_long,
      "Tar bort alla GitHub OAuth-tokens som lagras i systemvalvet. Påverkar inte tokens konfigurerade via konfigurationsfil eller miljövariabler.",
    )
    ∷ (Keys.cmd_github_monitor_short, "Starta GitHub-förrådsinsamlaren")
    ∷ (
      Keys.cmd_github_monitor_long,
      "Startar bakgrunds-GitHub-insamlaren som regelbundet hämtar förrådsmetadata, arbetsflödeskörningar och jobbstegstider. Exponerar hälso- och Prometheus-mätvärdeslutpunkter men inga API-proxyvägar. Designad för att köras som en separat process bredvid API-servern.",
    )
    ∷ (Keys.cmd_flag_config, "Sökväg till konfigurationsfil")
    ∷ []
