-- ===== src/I18n/Catalogues/Norwegian.antt =====
-- internal/i18n/no.go: the Norwegian catalogue.
use scuffinger.Prelude.{[], ◌∷◌}
use scuffinger.I18n.{Messages}
use scuffinger.I18n.Keys

unfoldable pub norwegian : Messages
norwegian =
    (Keys.msg_config_loaded, "Konfigurasjon lastet")
    ∷ (Keys.err_config_load, "Kunne ikke laste konfigurasjon")
    ∷ (Keys.msg_bootstrap_connecting, "Kobler til bakgrunnstjenester")
    ∷ (Keys.msg_bootstrap_self_tests, "Kjører oppstartstester")
    ∷ (Keys.msg_bootstrap_tests_passed, "Alle oppstartstester bestått")
    ∷ (Keys.msg_bootstrap_health_start, "Periodiske helsesjekker startet")
    ∷ (Keys.err_bootstrap_connect, "Kunne ikke koble til nødvendige tjenester")
    ∷ (Keys.err_bootstrap_self_tests, "Oppstartstester mislyktes")
    ∷ (Keys.msg_manager_connecting, "Kobler til tjeneste")
    ∷ (Keys.msg_manager_connected, "Koblet til tjeneste")
    ∷ (Keys.msg_manager_self_test, "Kjører selvtest")
    ∷ (Keys.msg_manager_self_test_passed, "Selvtest bestått")
    ∷ (Keys.msg_manager_closing, "Stenger tjenester")
    ∷ (Keys.warn_manager_health_failed, "Helsesjekk mislyktes")
    ∷ (Keys.err_manager_connect, "Kunne ikke koble til tjeneste")
    ∷ (Keys.err_manager_self_test, "Selvtest mislyktes for tjeneste")
    ∷ (Keys.err_manager_close, "Feil ved lukking av tjeneste")
    ∷ (Keys.err_manager_shutdown, "Feil oppstod under avslutning")
    ∷ (Keys.msg_cache_self_test_init, "Setter init-nøkkel med nåværende tidsstempel")
    ∷ (Keys.msg_cache_self_test_passed, "Cache-selvtest bestått")
    ∷ (Keys.err_cache_ping, "Cache er ikke tilgjengelig")
    ∷ (Keys.err_cache_set_init, "Kunne ikke skrive init-nøkkel til cache")
    ∷ (Keys.err_cache_get_init, "Kunne ikke lese init-nøkkel fra cache")
    ∷ (Keys.err_cache_init_mismatch, "Cache init-verdi stemmer ikke overens")
    ∷ (Keys.msg_db_creating_test_db, "Oppretter midlertidig testdatabase")
    ∷ (Keys.msg_db_running_crud, "Kjører CRUD-verifisering")
    ∷ (Keys.msg_db_self_test_passed, "Database-selvtest bestått")
    ∷ (
      Keys.warn_db_drop_test_failed,
      "Kunne ikke slette testdatabase (prøver igjen ved neste oppstart)",
    )
    ∷ (Keys.err_db_connect, "Database er ikke tilgjengelig")
    ∷ (Keys.err_db_ping, "Database svarte ikke på ping")
    ∷ (Keys.err_db_create_testdb, "Kunne ikke opprette testdatabase")
    ∷ (Keys.err_db_connect_testdb, "Kunne ikke koble til testdatabase")
    ∷ (Keys.err_db_crud, "CRUD-verifisering av database mislyktes")
    ∷ (Keys.err_db_create_table, "Kunne ikke opprette testtabell")
    ∷ (Keys.err_db_insert, "Kunne ikke sette inn testpost")
    ∷ (Keys.err_db_read, "Kunne ikke lese testpost")
    ∷ (Keys.err_db_read_mismatch, "Testpostens verdi samsvarer ikke med forventet")
    ∷ (Keys.err_db_update, "Kunne ikke oppdatere testpost")
    ∷ (Keys.err_db_read_after_update, "Kunne ikke lese testpost etter oppdatering")
    ∷ (Keys.err_db_update_mismatch, "Oppdatert testpostverdi samsvarer ikke med forventet")
    ∷ (Keys.msg_server_starting, "HTTP-server starter")
    ∷ (Keys.msg_server_shutdown, "Stenger HTTP-server")
    ∷ (Keys.msg_server_stopped, "HTTP-server stoppet på en ryddig måte")
    ∷ (Keys.msg_server_routes, "Ruter registrert")
    ∷ (Keys.err_server_listen, "HTTP-server støtte på en feil")
    ∷ (Keys.err_server_shutdown, "HTTP-server ble tvunget til å stoppe")
    ∷ (Keys.msg_health_ready, "Alle tjenester er friske")
    ∷ (Keys.msg_health_not_ready, "En eller flere tjenester er ikke klare")
    ∷ (Keys.msg_gh_connecting, "Kobler til GitHub API")
    ∷ (Keys.msg_gh_connected, "Koblet til GitHub API")
    ∷ (Keys.msg_gh_auth_token, "Autentiserer med personlig tilgangstoken")
    ∷ (Keys.msg_gh_auth_app, "Autentiserer som GitHub-app")
    ∷ (Keys.msg_gh_self_test_passed, "GitHub-selvtest bestått")
    ∷ (Keys.msg_gh_rate_remaining, "Status for GitHub API-hastighetsgrense")
    ∷ (Keys.warn_gh_rate_low, "GitHub API-hastighetsgrensen er i ferd med å gå tom")
    ∷ (
      Keys.err_gh_not_configured,
      "GitHub er ikke konfigurert — angi et token eller app-legitimasjon",
    )
    ∷ (Keys.err_gh_auth, "GitHub-autentisering mislyktes")
    ∷ (Keys.err_gh_read_key, "Kunne ikke lese privat nøkkelfil for GitHub-app")
    ∷ (Keys.err_gh_parse_key, "Kunne ikke tolke privat nøkkel for GitHub-app")
    ∷ (Keys.err_gh_install_token, "Kunne ikke hente installasjonstoken for GitHub-app")
    ∷ (Keys.err_gh_self_test, "GitHub-selvtest mislyktes")
    ∷ (Keys.err_gh_rate_limit, "GitHub API-hastighetsgrense for lav")
    ∷ (Keys.err_gh_fetch_user, "Kunne ikke hente GitHub-bruker")
    ∷ (Keys.err_gh_fetch_org, "Kunne ikke hente GitHub-organisasjon")
    ∷ (Keys.err_gh_fetch_repo, "Kunne ikke hente GitHub-repositorium")
    ∷ (Keys.err_gh_fetch_branches, "Kunne ikke hente grener for repositorium")
    ∷ (Keys.err_gh_fetch_workflows, "Kunne ikke hente arbeidsflyter for repositorium")
    ∷ (Keys.err_gh_fetch_runs, "Kunne ikke hente arbeidsflytkjøringer")
    ∷ (Keys.err_gh_fetch_rate_limit, "Kunne ikke hente GitHub-hastighetsgrense")
    ∷ (Keys.err_gh_invalid_workflow, "Ugyldig arbeidsflyt-ID")
    ∷ (Keys.msg_gh_collector_starting, "GitHub-repositoriumsamler starter")
    ∷ (Keys.msg_gh_collector_tick, "Kjører GitHub-innsamlingssyklus")
    ∷ (Keys.msg_gh_collector_repo, "Samler inn data for repositorium")
    ∷ (Keys.msg_gh_collector_stopped, "GitHub-repositoriumsamler stoppet")
    ∷ (Keys.msg_gh_collector_passed, "GitHub-samler selvtest bestått")
    ∷ (Keys.msg_gh_collector_annotations, "Annotasjoner samlet for mislykket jobb")
    ∷ (Keys.msg_gh_collector_lock_acquired, "Innsamlingslås anskaffet for repositorium")
    ∷ (
      Keys.msg_gh_collector_lock_skipped,
      "Repositorium hoppet over (en annen instans holder låsen)",
    )
    ∷ (
      Keys.warn_gh_collector_lock_error, "Kunne ikke anskaffe distribuert lås (fortsetter likevel)",
    )
    ∷ (Keys.err_gh_collector_fetch_repo, "Kunne ikke hente repositoriummetadata")
    ∷ (Keys.err_gh_collector_fetch_runs, "Kunne ikke hente arbeidsflytkjøringer")
    ∷ (Keys.err_gh_collector_fetch_jobs, "Kunne ikke hente arbeidsflytjobber")
    ∷ (Keys.err_gh_collector_fetch_annotations, "Kunne ikke hente sjekkjør-annotasjoner")
    ∷ (Keys.err_gh_collector_no_repos, "Ingen repositorier konfigurert for overvåking")
    ∷ (Keys.err_gh_collector_parse_repo, "Ugyldig repositoriumformat (forventet: eier/repo)")
    ∷ (Keys.msg_auth_device_prompt, "Skriv inn koden på URL-en for å autentisere")
    ∷ (Keys.msg_auth_polling, "Venter på GitHub-autorisasjon…")
    ∷ (Keys.msg_auth_success, "Vellykket autentisert med GitHub")
    ∷ (Keys.msg_auth_logged_out, "GitHub-legitimasjon fjernet")
    ∷ (Keys.msg_auth_status_logged_in, "Logget inn på GitHub")
    ∷ (
      Keys.msg_auth_status_no_token,
      "Ikke logget inn — kjør 'scuffinger github auth' for å autentisere",
    )
    ∷ (Keys.msg_auth_token_from_vault, "Bruker GitHub-token fra systemhvelvet")
    ∷ (
      Keys.err_auth_no_client_id,
      "github.client_id må være satt i konfigurasjon for OAuth-pålogging",
    )
    ∷ (Keys.err_auth_device_code, "Kunne ikke starte GitHub-enhetsflyt")
    ∷ (Keys.err_auth_poll, "Kunne ikke fullføre GitHub-autorisasjon")
    ∷ (Keys.err_auth_save_token, "Kunne ikke lagre token i systemhvelvet")
    ∷ (Keys.err_auth_verify_token, "Lagret token er ikke lenger gyldig")
    ∷ (Keys.cmd_root_short, "Scuffinger — en lettvekts GitHub-overvåkingstjeneste")
    ∷ (
      Keys.cmd_root_long,
      "Scuffinger er en lettvekts tjeneste for overvåking av GitHub-repositorier, arbeidsflyter og metrikker. Bygget med Cobra, Viper og Gin.",
    )
    ∷ (Keys.cmd_version_short, "Vis versjonsnummer")
    ∷ (
      Keys.cmd_version_long,
      "Viser gjeldende versjon av scuffinger-applikasjonen, inkludert byggeinformasjon når tilgjengelig.",
    )
    ∷ (Keys.cmd_serve_short, "Start HTTP-serveren")
    ∷ (
      Keys.cmd_serve_long,
      "Starter Gin HTTP-serveren med helsesjekker, Prometheus-metrikker og GitHub API-endepunkter. Serveren kobler til alle konfigurerte bakgrunnstjenester ved oppstart.",
    )
    ∷ (Keys.cmd_github_short, "GitHub-autentisering og status")
    ∷ (
      Keys.cmd_github_long,
      "Administrer GitHub OAuth-autentisering. Bruk underkommandoer for å logge inn via enhetsflyt, sjekke autentiseringsstatus eller fjerne lagret legitimasjon.",
    )
    ∷ (Keys.cmd_github_auth_short, "Autentiser med GitHub via OAuth")
    ∷ (
      Keys.cmd_github_auth_long,
      "Starter GitHub OAuth-enhetsflyten. Du får en engangskode å skrive inn på github.com/login/device. Etter autorisasjon lagres tokenet sikkert i systemhvelvet.",
    )
    ∷ (Keys.cmd_github_status_short, "Vis gjeldende autentiseringsstatus")
    ∷ (
      Keys.cmd_github_status_long,
      "Viser gjeldende GitHub-autentiseringsstatus, inkludert om legitimasjon er lagret i konfigurasjonsfil, miljøvariabler eller systemhvelv.",
    )
    ∷ (Keys.cmd_github_logout_short, "Fjern lagret GitHub-legitimasjon")
    ∷ (
      Keys.cmd_github_logout_long,
      "Fjerner alle GitHub OAuth-tokener som er lagret i systemhvelvet. Påvirker ikke tokener konfigurert via konfigurasjonsfil eller miljøvariabler.",
    )
    ∷ (Keys.cmd_github_monitor_short, "Start GitHub-repositorieinnsamleren")
    ∷ (
      Keys.cmd_github_monitor_long,
      "Starter bakgrunns GitHub-innsamleren som periodisk henter repositorie-metadata, arbeidsflytutførelser og jobbsteg-tidtaking. Eksponerer helse- og Prometheus-metrikkendepunkter, men ingen API-proxy-ruter. Designet for å kjøre som en separat prosess ved siden av API-serveren.",
    )
    ∷ (Keys.cmd_flag_config, "Sti til konfigurasjonsfil")
    ∷ []
