-- ===== src/I18n/Catalogues/German.antt =====
-- internal/i18n/de.go: the German catalogue.
use scuffinger.Prelude.{[], ◌∷◌}
use scuffinger.I18n.{Messages}
use scuffinger.I18n.Keys

unfoldable pub german : Messages
german =
    (Keys.msg_config_loaded, "Konfiguration geladen")
    ∷ (Keys.err_config_load, "Konfiguration konnte nicht geladen werden")
    ∷ (Keys.msg_bootstrap_connecting, "Verbindung zu Hintergrunddiensten wird hergestellt")
    ∷ (Keys.msg_bootstrap_self_tests, "Start-Selbsttests werden ausgeführt")
    ∷ (Keys.msg_bootstrap_tests_passed, "Alle Selbsttests bestanden")
    ∷ (Keys.msg_bootstrap_health_start, "Periodische Gesundheitsprüfungen gestartet")
    ∷ (Keys.err_bootstrap_connect, "Verbindung zu erforderlichen Diensten nicht möglich")
    ∷ (Keys.err_bootstrap_self_tests, "Start-Selbsttests fehlgeschlagen")
    ∷ (Keys.msg_manager_connecting, "Verbindung zum Dienst wird hergestellt")
    ∷ (Keys.msg_manager_connected, "Mit Dienst verbunden")
    ∷ (Keys.msg_manager_self_test, "Selbsttest wird ausgeführt")
    ∷ (Keys.msg_manager_self_test_passed, "Selbsttest bestanden")
    ∷ (Keys.msg_manager_closing, "Dienste werden heruntergefahren")
    ∷ (Keys.warn_manager_health_failed, "Gesundheitsprüfung fehlgeschlagen")
    ∷ (Keys.err_manager_connect, "Verbindung zum Dienst fehlgeschlagen")
    ∷ (Keys.err_manager_self_test, "Selbsttest für Dienst fehlgeschlagen")
    ∷ (Keys.err_manager_close, "Fehler beim Schließen des Dienstes")
    ∷ (Keys.err_manager_shutdown, "Fehler beim Herunterfahren aufgetreten")
    ∷ (Keys.msg_cache_self_test_init, "Init-Schlüssel wird mit aktuellem Zeitstempel gesetzt")
    ∷ (Keys.msg_cache_self_test_passed, "Cache-Selbsttest bestanden")
    ∷ (Keys.err_cache_ping, "Cache ist nicht erreichbar")
    ∷ (Keys.err_cache_set_init, "Init-Schlüssel konnte nicht in den Cache geschrieben werden")
    ∷ (Keys.err_cache_get_init, "Init-Schlüssel konnte nicht aus dem Cache gelesen werden")
    ∷ (Keys.err_cache_init_mismatch, "Cache-Init-Wert stimmt nicht überein")
    ∷ (Keys.msg_db_creating_test_db, "Temporäre Testdatenbank wird erstellt")
    ∷ (Keys.msg_db_running_crud, "CRUD-Überprüfung wird ausgeführt")
    ∷ (Keys.msg_db_self_test_passed, "Datenbank-Selbsttest bestanden")
    ∷ (
      Keys.warn_db_drop_test_failed,
      "Testdatenbank konnte nicht gelöscht werden (wird beim nächsten Start erneut versucht)",
    )
    ∷ (Keys.err_db_connect, "Datenbank ist nicht erreichbar")
    ∷ (Keys.err_db_ping, "Datenbank hat nicht auf Ping geantwortet")
    ∷ (Keys.err_db_create_testdb, "Testdatenbank konnte nicht erstellt werden")
    ∷ (Keys.err_db_connect_testdb, "Verbindung zur Testdatenbank fehlgeschlagen")
    ∷ (Keys.err_db_crud, "CRUD-Überprüfung der Datenbank fehlgeschlagen")
    ∷ (Keys.err_db_create_table, "Testtabelle konnte nicht erstellt werden")
    ∷ (Keys.err_db_insert, "Testdatensatz konnte nicht eingefügt werden")
    ∷ (Keys.err_db_read, "Testdatensatz konnte nicht gelesen werden")
    ∷ (Keys.err_db_read_mismatch, "Testdatensatzwert stimmt nicht mit dem Erwarteten überein")
    ∷ (Keys.err_db_update, "Testdatensatz konnte nicht aktualisiert werden")
    ∷ (
      Keys.err_db_read_after_update,
      "Testdatensatz konnte nach Aktualisierung nicht gelesen werden",
    )
    ∷ (
      Keys.err_db_update_mismatch,
      "Aktualisierter Testdatensatzwert stimmt nicht mit dem Erwarteten überein",
    )
    ∷ (Keys.msg_server_starting, "HTTP-Server wird gestartet")
    ∷ (Keys.msg_server_shutdown, "HTTP-Server wird heruntergefahren")
    ∷ (Keys.msg_server_stopped, "HTTP-Server wurde ordnungsgemäß gestoppt")
    ∷ (Keys.msg_server_routes, "Routen registriert")
    ∷ (Keys.err_server_listen, "HTTP-Server hat einen Fehler festgestellt")
    ∷ (Keys.err_server_shutdown, "HTTP-Server wurde zum Herunterfahren gezwungen")
    ∷ (Keys.msg_health_ready, "Alle Dienste sind gesund")
    ∷ (Keys.msg_health_not_ready, "Ein oder mehrere Dienste sind nicht bereit")
    ∷ (Keys.msg_gh_connecting, "Verbindung zur GitHub-API wird hergestellt")
    ∷ (Keys.msg_gh_connected, "Mit GitHub-API verbunden")
    ∷ (Keys.msg_gh_auth_token, "Authentifizierung mit persönlichem Zugriffstoken")
    ∷ (Keys.msg_gh_auth_app, "Authentifizierung als GitHub-App")
    ∷ (Keys.msg_gh_self_test_passed, "GitHub-Selbsttest bestanden")
    ∷ (Keys.msg_gh_rate_remaining, "Status des GitHub-API-Ratenlimits")
    ∷ (Keys.warn_gh_rate_low, "Das GitHub-API-Ratenlimit wird knapp")
    ∷ (
      Keys.err_gh_not_configured,
      "GitHub ist nicht konfiguriert — Token oder App-Anmeldedaten festlegen",
    )
    ∷ (Keys.err_gh_auth, "GitHub-Authentifizierung fehlgeschlagen")
    ∷ (Keys.err_gh_read_key, "Fehler beim Lesen der privaten Schlüsseldatei der GitHub-App")
    ∷ (Keys.err_gh_parse_key, "Fehler beim Parsen des privaten Schlüssels der GitHub-App")
    ∷ (Keys.err_gh_install_token, "Fehler beim Abrufen des Installationstokens der GitHub-App")
    ∷ (Keys.err_gh_self_test, "GitHub-Selbsttest fehlgeschlagen")
    ∷ (Keys.err_gh_rate_limit, "GitHub-API-Ratenlimit zu niedrig")
    ∷ (Keys.err_gh_fetch_user, "Fehler beim Abrufen des GitHub-Benutzers")
    ∷ (Keys.err_gh_fetch_org, "Fehler beim Abrufen der GitHub-Organisation")
    ∷ (Keys.err_gh_fetch_repo, "Fehler beim Abrufen des GitHub-Repositorys")
    ∷ (Keys.err_gh_fetch_branches, "Fehler beim Abrufen der Repository-Branches")
    ∷ (Keys.err_gh_fetch_workflows, "Fehler beim Abrufen der Repository-Workflows")
    ∷ (Keys.err_gh_fetch_runs, "Fehler beim Abrufen der Workflow-Ausführungen")
    ∷ (Keys.err_gh_fetch_rate_limit, "Fehler beim Abrufen des GitHub-Ratenlimits")
    ∷ (Keys.err_gh_invalid_workflow, "Ungültige Workflow-ID")
    ∷ (Keys.msg_gh_collector_starting, "GitHub-Repository-Collector wird gestartet")
    ∷ (Keys.msg_gh_collector_tick, "GitHub-Sammeldurchlauf wird ausgeführt")
    ∷ (Keys.msg_gh_collector_repo, "Daten für Repository werden gesammelt")
    ∷ (Keys.msg_gh_collector_stopped, "GitHub-Repository-Collector wurde gestoppt")
    ∷ (Keys.msg_gh_collector_passed, "GitHub-Collector-Selbsttest bestanden")
    ∷ (Keys.msg_gh_collector_annotations, "Annotationen für fehlgeschlagenen Job gesammelt")
    ∷ (Keys.msg_gh_collector_lock_acquired, "Sammelsperre für Repository erworben")
    ∷ (
      Keys.msg_gh_collector_lock_skipped,
      "Repository übersprungen (eine andere Instanz hält die Sperre)",
    )
    ∷ (
      Keys.warn_gh_collector_lock_error,
      "Verteilte Sperre konnte nicht erworben werden (wird trotzdem fortgesetzt)",
    )
    ∷ (Keys.err_gh_collector_fetch_repo, "Fehler beim Abrufen der Repository-Metadaten")
    ∷ (Keys.err_gh_collector_fetch_runs, "Fehler beim Abrufen der Workflow-Ausführungen")
    ∷ (Keys.err_gh_collector_fetch_jobs, "Fehler beim Abrufen der Workflow-Jobs")
    ∷ (Keys.err_gh_collector_fetch_annotations, "Fehler beim Abrufen der Check-Run-Annotationen")
    ∷ (Keys.err_gh_collector_no_repos, "Keine Repositories zur Überwachung konfiguriert")
    ∷ (Keys.err_gh_collector_parse_repo, "Ungültiges Repository-Format (erwartet: owner/repo)")
    ∷ (
      Keys.msg_auth_device_prompt,
      "Geben Sie den Code unter der URL ein, um sich zu authentifizieren",
    )
    ∷ (Keys.msg_auth_polling, "Warten auf GitHub-Autorisierung…")
    ∷ (Keys.msg_auth_success, "Erfolgreich bei GitHub authentifiziert")
    ∷ (Keys.msg_auth_logged_out, "GitHub-Anmeldedaten entfernt")
    ∷ (Keys.msg_auth_status_logged_in, "Bei GitHub angemeldet")
    ∷ (Keys.msg_auth_status_no_token, "Nicht angemeldet — führen Sie 'scuffinger github auth' aus")
    ∷ (Keys.msg_auth_token_from_vault, "Verwende GitHub-Token aus dem System-Tresor")
    ∷ (
      Keys.err_auth_no_client_id,
      "github.client_id muss in der Konfiguration für OAuth-Login gesetzt sein",
    )
    ∷ (Keys.err_auth_device_code, "Fehler beim Starten des GitHub-Device-Flows")
    ∷ (Keys.err_auth_poll, "Fehler beim Abschließen der GitHub-Autorisierung")
    ∷ (Keys.err_auth_save_token, "Fehler beim Speichern des Tokens im System-Tresor")
    ∷ (Keys.err_auth_verify_token, "Gespeichertes Token ist nicht mehr gültig")
    ∷ (Keys.cmd_root_short, "Scuffinger — ein leichtgewichtiger GitHub-Überwachungsdienst")
    ∷ (
      Keys.cmd_root_long,
      "Scuffinger ist ein leichtgewichtiger Dienst zur Überwachung von GitHub-Repositories, Workflows und Metriken. Erstellt mit Cobra, Viper und Gin.",
    )
    ∷ (Keys.cmd_version_short, "Versionsnummer anzeigen")
    ∷ (
      Keys.cmd_version_long,
      "Zeigt die aktuelle Version der Scuffinger-Anwendung an, einschließlich Build-Informationen wenn verfügbar.",
    )
    ∷ (Keys.cmd_serve_short, "HTTP-Server starten")
    ∷ (
      Keys.cmd_serve_long,
      "Startet den Gin-HTTP-Server mit Gesundheitsprüfungen, Prometheus-Metriken und GitHub-API-Endpunkten. Der Server verbindet sich beim Start mit allen konfigurierten Hintergrunddiensten.",
    )
    ∷ (Keys.cmd_github_short, "GitHub-Authentifizierung und Status")
    ∷ (
      Keys.cmd_github_long,
      "GitHub-OAuth-Authentifizierung verwalten. Verwenden Sie Unterbefehle zum Anmelden via Device-Flow, Überprüfen des Authentifizierungsstatus oder Entfernen gespeicherter Anmeldedaten.",
    )
    ∷ (Keys.cmd_github_auth_short, "Mit GitHub via OAuth authentifizieren")
    ∷ (
      Keys.cmd_github_auth_long,
      "Startet den GitHub-OAuth-Device-Flow. Sie erhalten einen Einmalcode zur Eingabe unter github.com/login/device. Nach der Autorisierung wird das Token sicher im System-Tresor gespeichert.",
    )
    ∷ (Keys.cmd_github_status_short, "Aktuellen Authentifizierungsstatus anzeigen")
    ∷ (
      Keys.cmd_github_status_long,
      "Zeigt den aktuellen GitHub-Authentifizierungsstatus an, einschließlich ob Anmeldedaten in der Konfigurationsdatei, Umgebung oder im System-Tresor gespeichert sind.",
    )
    ∷ (Keys.cmd_github_logout_short, "Gespeicherte GitHub-Anmeldedaten entfernen")
    ∷ (
      Keys.cmd_github_logout_long,
      "Entfernt alle im System-Tresor gespeicherten GitHub-OAuth-Tokens. Beeinflusst keine Tokens, die über Konfigurationsdatei oder Umgebungsvariablen konfiguriert sind.",
    )
    ∷ (Keys.cmd_github_monitor_short, "GitHub-Repository-Collector starten")
    ∷ (
      Keys.cmd_github_monitor_long,
      "Startet den Hintergrund-GitHub-Collector, der regelmäßig Repository-Metadaten, Workflow-Ausführungen und Job-Schritt-Zeiten abruft. Stellt Gesundheits- und Prometheus-Metriken-Endpunkte bereit, aber keine API-Proxy-Routen. Konzipiert als separater Prozess neben dem API-Server.",
    )
    ∷ (Keys.cmd_flag_config, "Pfad zur Konfigurationsdatei")
    ∷ []
