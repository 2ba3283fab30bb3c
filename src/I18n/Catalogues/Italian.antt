-- ===== src/I18n/Catalogues/Italian.antt =====
-- internal/i18n/it.go: the Italian catalogue.
use scuffinger.Prelude.{[], ◌∷◌}
use scuffinger.I18n.{Messages}
use scuffinger.I18n.Keys

unfoldable pub italian : Messages
italian =
    (Keys.msg_config_loaded, "Configurazione caricata")
    ∷ (Keys.err_config_load, "Impossibile caricare la configurazione")
    ∷ (Keys.msg_bootstrap_connecting, "Connessione ai servizi di supporto")
    ∷ (Keys.msg_bootstrap_self_tests, "Esecuzione degli autotest di avvio")
    ∷ (Keys.msg_bootstrap_tests_passed, "Tutti gli autotest superati")
    ∷ (Keys.msg_bootstrap_health_start, "Controlli di integrità periodici avviati")
    ∷ (Keys.err_bootstrap_connect, "Impossibile connettersi ai servizi richiesti")
    ∷ (Keys.err_bootstrap_self_tests, "Autotest di avvio falliti")
    ∷ (Keys.msg_manager_connecting, "Connessione al servizio")
    ∷ (Keys.msg_manager_connected, "Connesso al servizio")
    ∷ (Keys.msg_manager_self_test, "Esecuzione dell'autotest")
    ∷ (Keys.msg_manager_self_test_passed, "Autotest superato")
    ∷ (Keys.msg_manager_closing, "Arresto dei servizi")
    ∷ (Keys.warn_manager_health_failed, "Controllo di integrità fallito")
    ∷ (Keys.err_manager_connect, "Connessione al servizio fallita")
    ∷ (Keys.err_manager_self_test, "Autotest fallito per il servizio")
    ∷ (Keys.err_manager_close, "Errore durante la chiusura del servizio")
    ∷ (Keys.err_manager_shutdown, "Si sono verificati errori durante l'arresto")
    ∷ (Keys.msg_cache_self_test_init, "Impostazione della chiave init con il timestamp corrente")
    ∷ (Keys.msg_cache_self_test_passed, "Autotest della cache superato")
    ∷ (Keys.err_cache_ping, "Cache non raggiungibile")
    ∷ (Keys.err_cache_set_init, "Impossibile scrivere la chiave init nella cache")
    ∷ (Keys.err_cache_get_init, "Impossibile leggere la chiave init dalla cache")
    ∷ (Keys.err_cache_init_mismatch, "Valore init della cache non corrispondente")
    ∷ (Keys.msg_db_creating_test_db, "Creazione del database di test temporaneo")
    ∷ (Keys.msg_db_running_crud, "Esecuzione della verifica CRUD")
    ∷ (Keys.msg_db_self_test_passed, "Autotest del database superato")
    ∷ (
      Keys.warn_db_drop_test_failed,
      "Impossibile eliminare il database di test (nuovo tentativo al prossimo avvio)",
    )
    ∷ (Keys.err_db_connect, "Database non raggiungibile")
    ∷ (Keys.err_db_ping, "Il database non ha risposto al ping")
    ∷ (Keys.err_db_create_testdb, "Impossibile creare il database di test")
    ∷ (Keys.err_db_connect_testdb, "Impossibile connettersi al database di test")
    ∷ (Keys.err_db_crud, "Verifica CRUD del database fallita")
    ∷ (Keys.err_db_create_table, "Impossibile creare la tabella di test")
    ∷ (Keys.err_db_insert, "Impossibile inserire il record di test")
    ∷ (Keys.err_db_read, "Impossibile leggere il record di test")
    ∷ (Keys.err_db_read_mismatch, "Il valore del record di test non corrisponde a quello atteso")
    ∷ (Keys.err_db_update, "Impossibile aggiornare il record di test")
    ∷ (Keys.err_db_read_after_update, "Impossibile leggere il record di test dopo l'aggiornamento")
    ∷ (
      Keys.err_db_update_mismatch,
      "Il valore del record aggiornato non corrisponde a quello atteso",
    )
    ∷ (Keys.msg_server_starting, "Avvio del server HTTP")
    ∷ (Keys.msg_server_shutdown, "Arresto del server HTTP")
    ∷ (Keys.msg_server_stopped, "Server HTTP arrestato correttamente")
    ∷ (Keys.msg_server_routes, "Route registrate")
    ∷ (Keys.err_server_listen, "Il server HTTP ha riscontrato un errore")
    ∷ (Keys.err_server_shutdown, "Il server HTTP è stato arrestato forzatamente")
    ∷ (Keys.msg_health_ready, "Tutti i servizi funzionanti")
    ∷ (Keys.msg_health_not_ready, "Uno o più servizi non pronti")
    ∷ (Keys.msg_gh_connecting, "Connessione all'API GitHub")
    ∷ (Keys.msg_gh_connected, "Connesso all'API GitHub")
    ∷ (Keys.msg_gh_auth_token, "Autenticazione con token di accesso personale")
    ∷ (Keys.msg_gh_auth_app, "Autenticazione come GitHub App")
    ∷ (Keys.msg_gh_self_test_passed, "Autotest GitHub superato")
    ∷ (Keys.msg_gh_rate_remaining, "Stato del limite di frequenza dell'API GitHub")
    ∷ (Keys.warn_gh_rate_low, "Il limite di frequenza dell'API GitHub sta per esaurirsi")
    ∷ (
      Keys.err_gh_not_configured,
      "GitHub non configurato — impostare un token o le credenziali dell'app",
    )
    ∷ (Keys.err_gh_auth, "Autenticazione GitHub fallita")
    ∷ (Keys.err_gh_read_key, "Impossibile leggere il file della chiave privata della GitHub App")
    ∷ (Keys.err_gh_parse_key, "Impossibile analizzare la chiave privata della GitHub App")
    ∷ (Keys.err_gh_install_token, "Impossibile ottenere il token di installazione della GitHub App")
    ∷ (Keys.err_gh_self_test, "Autotest GitHub fallito")
    ∷ (Keys.err_gh_rate_limit, "Limite di frequenza dell'API GitHub troppo basso")
    ∷ (Keys.err_gh_fetch_user, "Impossibile recuperare l'utente GitHub")
    ∷ (Keys.err_gh_fetch_org, "Impossibile recuperare l'organizzazione GitHub")
    ∷ (Keys.err_gh_fetch_repo, "Impossibile recuperare il repository GitHub")
    ∷ (Keys.err_gh_fetch_branches, "Impossibile recuperare i branch del repository")
    ∷ (Keys.err_gh_fetch_workflows, "Impossibile recuperare i workflow del repository")
    ∷ (Keys.err_gh_fetch_runs, "Impossibile recuperare le esecuzioni dei workflow")
    ∷ (Keys.err_gh_fetch_rate_limit, "Impossibile recuperare il limite di frequenza GitHub")
    ∷ (Keys.err_gh_invalid_workflow, "ID workflow non valido")
    ∷ (Keys.msg_gh_collector_starting, "Avvio del collector dei repository GitHub")
    ∷ (Keys.msg_gh_collector_tick, "Esecuzione del ciclo di raccolta GitHub")
    ∷ (Keys.msg_gh_collector_repo, "Raccolta dati per il repository")
    ∷ (Keys.msg_gh_collector_stopped, "Collector dei repository GitHub arrestato")
    ∷ (Keys.msg_gh_collector_passed, "Autotest del collector GitHub superato")
    ∷ (Keys.msg_gh_collector_annotations, "Annotazioni raccolte per il job fallito")
    ∷ (Keys.msg_gh_collector_lock_acquired, "Lock di raccolta acquisito per il repository")
    ∷ (Keys.msg_gh_collector_lock_skipped, "Repository saltato (un'altra istanza detiene il lock)")
    ∷ (
      Keys.warn_gh_collector_lock_error,
      "Impossibile acquisire il lock distribuito (si procede comunque)",
    )
    ∷ (Keys.err_gh_collector_fetch_repo, "Impossibile recuperare i metadati del repository")
    ∷ (Keys.err_gh_collector_fetch_runs, "Impossibile recuperare le esecuzioni dei workflow")
    ∷ (Keys.err_gh_collector_fetch_jobs, "Impossibile recuperare i job dei workflow")
    ∷ (
      Keys.err_gh_collector_fetch_annotations,
      "Impossibile recuperare le annotazioni del check-run",
    )
    ∷ (Keys.err_gh_collector_no_repos, "Nessun repository configurato per il monitoraggio")
    ∷ (Keys.err_gh_collector_parse_repo, "Formato del repository non valido (atteso: owner/repo)")
    ∷ (Keys.msg_auth_device_prompt, "Inserisci il codice all'URL per autenticarti")
    ∷ (Keys.msg_auth_polling, "In attesa dell'autorizzazione GitHub…")
    ∷ (Keys.msg_auth_success, "Autenticazione con GitHub riuscita")
    ∷ (Keys.msg_auth_logged_out, "Credenziali GitHub rimosse")
    ∷ (Keys.msg_auth_status_logged_in, "Connesso a GitHub")
    ∷ (
      Keys.msg_auth_status_no_token,
      "Non connesso — esegui 'scuffinger github auth' per autenticarti",
    )
    ∷ (Keys.msg_auth_token_from_vault, "Utilizzo del token GitHub dal vault di sistema")
    ∷ (
      Keys.err_auth_no_client_id,
      "github.client_id deve essere impostato nella configurazione per il login OAuth",
    )
    ∷ (Keys.err_auth_device_code, "Impossibile avviare il flusso dispositivo GitHub")
    ∷ (Keys.err_auth_poll, "Impossibile completare l'autorizzazione GitHub")
    ∷ (Keys.err_auth_save_token, "Impossibile salvare il token nel vault di sistema")
    ∷ (Keys.err_auth_verify_token, "Il token memorizzato non è più valido")
    ∷ (Keys.cmd_root_short, "Scuffinger — un servizio leggero di monitoraggio GitHub")
    ∷ (
      Keys.cmd_root_long,
      "Scuffinger è un servizio leggero per il monitoraggio di repository, workflow e metriche GitHub. Costruito con Cobra, Viper e Gin.",
    )
    ∷ (Keys.cmd_version_short, "Mostra il numero di versione")
    ∷ (
      Keys.cmd_version_long,
      "Visualizza la versione corrente dell'applicazione scuffinger, incluse le informazioni di build quando disponibili.",
    )
    ∷ (Keys.cmd_serve_short, "Avvia il server HTTP")
    ∷ (
      Keys.cmd_serve_long,
      "Avvia il server HTTP Gin con controlli di integrità, metriche Prometheus e endpoint API GitHub. Il server si connette a tutti i servizi di supporto configurati all'avvio.",
    )
    ∷ (Keys.cmd_github_short, "Autenticazione e stato GitHub")
    ∷ (
      Keys.cmd_github_long,
      "Gestisci l'autenticazione OAuth GitHub. Usa i sottocomandi per accedere tramite flusso dispositivo, verificare lo stato dell'autenticazione o rimuovere le credenziali memorizzate.",
    )
    ∷ (Keys.cmd_github_auth_short, "Autenticati con GitHub tramite OAuth")
    ∷ (
      Keys.cmd_github_auth_long,
      "Avvia il flusso dispositivo OAuth GitHub. Riceverai un codice monouso da inserire su github.com/login/device. Una volta autorizzato, il token viene memorizzato in modo sicuro nel vault di sistema.",
    )
    ∷ (Keys.cmd_github_status_short, "Mostra lo stato attuale dell'autenticazione")
    ∷ (
      Keys.cmd_github_status_long,
      "Visualizza lo stato attuale dell'autenticazione GitHub, incluso se le credenziali sono memorizzate nel file di configurazione, nelle variabili d'ambiente o nel vault di sistema.",
    )
    ∷ (Keys.cmd_github_logout_short, "Rimuovi le credenziali GitHub memorizzate")
    ∷ (
      Keys.cmd_github_logout_long,
      "Rimuove tutti i token OAuth GitHub memorizzati nel vault di sistema. Non influisce sui token configurati tramite file di configurazione o variabili d'ambiente.",
    )
    ∷ (Keys.cmd_github_monitor_short, "Avvia il collector dei repository GitHub")
    ∷ (
      Keys.cmd_github_monitor_long,
      "Avvia il collector GitHub in background che recupera periodicamente metadati dei repository, esecuzioni dei workflow e tempi dei passaggi dei job. Espone endpoint di integrità e metriche Prometheus, ma nessuna rotta proxy API. Progettato per essere eseguito come processo separato accanto al server API.",
    )
    ∷ (Keys.cmd_flag_config, "Percorso del file di configurazione")
    ∷ []
