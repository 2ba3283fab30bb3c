-- ===== src/I18n/Catalogues/French.antt =====
-- internal/i18n/fr.go: the French catalogue.
use scuffinger.Prelude.{[], ◌∷◌}
use scuffinger.I18n.{Messages}
use scuffinger.I18n.Keys

unfoldable pub french : Messages
french =
    (Keys.msg_config_loaded, "Configuration chargée")
    ∷ (Keys.err_config_load, "Échec du chargement de la configuration")
    ∷ (Keys.msg_bootstrap_connecting, "Connexion aux services de support")
    ∷ (Keys.msg_bootstrap_self_tests, "Exécution des autotests de démarrage")
    ∷ (Keys.msg_bootstrap_tests_passed, "Tous les autotests ont réussi")
    ∷ (Keys.msg_bootstrap_health_start, "Vérifications périodiques de santé démarrées")
    ∷ (Keys.err_bootstrap_connect, "Impossible de se connecter aux services requis")
    ∷ (Keys.err_bootstrap_self_tests, "Les autotests de démarrage ont échoué")
    ∷ (Keys.msg_manager_connecting, "Connexion au service")
    ∷ (Keys.msg_manager_connected, "Connecté au service")
    ∷ (Keys.msg_manager_self_test, "Exécution de l'autotest")
    ∷ (Keys.msg_manager_self_test_passed, "Autotest réussi")
    ∷ (Keys.msg_manager_closing, "Arrêt des services")
    ∷ (Keys.warn_manager_health_failed, "La vérification de santé a échoué")
    ∷ (Keys.err_manager_connect, "Échec de la connexion au service")
    ∷ (Keys.err_manager_self_test, "L'autotest a échoué pour le service")
    ∷ (Keys.err_manager_close, "Erreur lors de la fermeture du service")
    ∷ (Keys.err_manager_shutdown, "Des erreurs se sont produites lors de l'arrêt")
    ∷ (Keys.msg_cache_self_test_init, "Définition de la clé init avec l'horodatage actuel")
    ∷ (Keys.msg_cache_self_test_passed, "Autotest du cache réussi")
    ∷ (Keys.err_cache_ping, "Le cache n'est pas accessible")
    ∷ (Keys.err_cache_set_init, "Échec de l'écriture de la clé init dans le cache")
    ∷ (Keys.err_cache_get_init, "Échec de la lecture de la clé init du cache")
    ∷ (Keys.err_cache_init_mismatch, "La valeur init du cache ne correspond pas")
    ∷ (Keys.msg_db_creating_test_db, "Création de la base de données de test temporaire")
    ∷ (Keys.msg_db_running_crud, "Exécution de la vérification CRUD")
    ∷ (Keys.msg_db_self_test_passed, "Autotest de la base de données réussi")
    ∷ (
      Keys.warn_db_drop_test_failed,
      "Impossible de supprimer la base de données de test (nouvel essai au prochain démarrage)",
    )
    ∷ (Keys.err_db_connect, "La base de données n'est pas accessible")
    ∷ (Keys.err_db_ping, "La base de données n'a pas répondu au ping")
    ∷ (Keys.err_db_create_testdb, "Échec de la création de la base de données de test")
    ∷ (Keys.err_db_connect_testdb, "Échec de la connexion à la base de données de test")
    ∷ (Keys.err_db_crud, "La vérification CRUD de la base de données a échoué")
    ∷ (Keys.err_db_create_table, "Échec de la création de la table de test")
    ∷ (Keys.err_db_insert, "Échec de l'insertion de l'enregistrement de test")
    ∷ (Keys.err_db_read, "Échec de la lecture de l'enregistrement de test")
    ∷ (
      Keys.err_db_read_mismatch,
      "La valeur de l'enregistrement de test ne correspond pas à la valeur attendue",
    )
    ∷ (Keys.err_db_update, "Échec de la mise à jour de l'enregistrement de test")
    ∷ (
      Keys.err_db_read_after_update,
      "Échec de la lecture de l'enregistrement de test après la mise à jour",
    )
    ∷ (
      Keys.err_db_update_mismatch,
      "La valeur de l'enregistrement mis à jour ne correspond pas à la valeur attendue",
    )
    ∷ (Keys.msg_server_starting, "Démarrage du serveur HTTP")
    ∷ (Keys.msg_server_shutdown, "Arrêt du serveur HTTP")
    ∷ (Keys.msg_server_stopped, "Le serveur HTTP s'est arrêté correctement")
    ∷ (Keys.msg_server_routes, "Routes enregistrées")
    ∷ (Keys.err_server_listen, "Le serveur HTTP a rencontré une erreur")
    ∷ (Keys.err_server_shutdown, "Le serveur HTTP a été forcé de s'arrêter")
    ∷ (Keys.msg_health_ready, "Tous les services sont opérationnels")
    ∷ (Keys.msg_health_not_ready, "Un ou plusieurs services ne sont pas prêts")
    ∷ (Keys.msg_gh_connecting, "Connexion à l'API GitHub")
    ∷ (Keys.msg_gh_connected, "Connecté à l'API GitHub")
    ∷ (Keys.msg_gh_auth_token, "Authentification avec un jeton d'accès personnel")
    ∷ (Keys.msg_gh_auth_app, "Authentification en tant qu'application GitHub")
    ∷ (Keys.msg_gh_self_test_passed, "Autotest GitHub réussi")
    ∷ (Keys.msg_gh_rate_remaining, "État de la limite de débit de l'API GitHub")
    ∷ (Keys.warn_gh_rate_low, "La limite de débit de l'API GitHub est basse")
    ∷ (
      Keys.err_gh_not_configured,
      "GitHub n'est pas configuré — définissez un jeton ou des identifiants d'application",
    )
    ∷ (Keys.err_gh_auth, "L'authentification GitHub a échoué")
    ∷ (Keys.err_gh_read_key, "Échec de la lecture du fichier de clé privée de l'application GitHub")
    ∷ (Keys.err_gh_parse_key, "Échec de l'analyse de la clé privée de l'application GitHub")
    ∷ (
      Keys.err_gh_install_token,
      "Échec de l'obtention du jeton d'installation de l'application GitHub",
    )
    ∷ (Keys.err_gh_self_test, "L'autotest GitHub a échoué")
    ∷ (Keys.err_gh_rate_limit, "Limite de débit de l'API GitHub trop basse")
    ∷ (Keys.err_gh_fetch_user, "Échec de la récupération de l'utilisateur GitHub")
    ∷ (Keys.err_gh_fetch_org, "Échec de la récupération de l'organisation GitHub")
    ∷ (Keys.err_gh_fetch_repo, "Échec de la récupération du dépôt GitHub")
    ∷ (Keys.err_gh_fetch_branches, "Échec de la récupération des branches du dépôt")
    ∷ (Keys.err_gh_fetch_workflows, "Échec de la récupération des flux de travail du dépôt")
    ∷ (Keys.err_gh_fetch_runs, "Échec de la récupération des exécutions du flux de travail")
    ∷ (Keys.err_gh_fetch_rate_limit, "Échec de la récupération de la limite de débit GitHub")
    ∷ (Keys.err_gh_invalid_workflow, "ID de flux de travail non valide")
    ∷ (Keys.msg_gh_collector_starting, "Démarrage du collecteur de dépôts GitHub")
    ∷ (Keys.msg_gh_collector_tick, "Exécution du cycle de collecte GitHub")
    ∷ (Keys.msg_gh_collector_repo, "Collecte des données du dépôt")
    ∷ (Keys.msg_gh_collector_stopped, "Collecteur de dépôts GitHub arrêté")
    ∷ (Keys.msg_gh_collector_passed, "Autotest du collecteur GitHub réussi")
    ∷ (Keys.msg_gh_collector_annotations, "Annotations collectées pour le travail échoué")
    ∷ (Keys.msg_gh_collector_lock_acquired, "Verrou de collecte acquis pour le dépôt")
    ∷ (Keys.msg_gh_collector_lock_skipped, "Dépôt ignoré (une autre instance détient le verrou)")
    ∷ (
      Keys.warn_gh_collector_lock_error,
      "Échec de l'acquisition du verrou distribué (poursuite malgré tout)",
    )
    ∷ (Keys.err_gh_collector_fetch_repo, "Échec de la récupération des métadonnées du dépôt")
    ∷ (
      Keys.err_gh_collector_fetch_runs,
      "Échec de la récupération des exécutions du flux de travail",
    )
    ∷ (Keys.err_gh_collector_fetch_jobs, "Échec de la récupération des tâches du flux de travail")
    ∷ (
      Keys.err_gh_collector_fetch_annotations,
      "Échec de la récupération des annotations du check-run",
    )
    ∷ (Keys.err_gh_collector_no_repos, "Aucun dépôt configuré pour la surveillance")
    ∷ (Keys.err_gh_collector_parse_repo, "Format de dépôt invalide (attendu: propriétaire/dépôt)")
    ∷ (Keys.msg_auth_device_prompt, "Entrez le code à l'URL pour vous authentifier")
    ∷ (Keys.msg_auth_polling, "En attente de l'autorisation GitHub…")
    ∷ (Keys.msg_auth_success, "Authentification GitHub réussie")
    ∷ (Keys.msg_auth_logged_out, "Identifiants GitHub supprimés")
    ∷ (Keys.msg_auth_status_logged_in, "Connecté à GitHub")
    ∷ (
      Keys.msg_auth_status_no_token,
      "Non connecté — exécutez 'scuffinger github auth' pour vous authentifier",
    )
    ∷ (Keys.msg_auth_token_from_vault, "Utilisation du jeton GitHub depuis le coffre-fort système")
    ∷ (
      Keys.err_auth_no_client_id,
      "github.client_id doit être défini dans la configuration pour la connexion OAuth",
    )
    ∷ (Keys.err_auth_device_code, "Échec de l'initiation du flux d'appareil GitHub")
    ∷ (Keys.err_auth_poll, "Échec de l'achèvement de l'autorisation GitHub")
    ∷ (Keys.err_auth_save_token, "Échec de l'enregistrement du jeton dans le coffre-fort système")
    ∷ (Keys.err_auth_verify_token, "Le jeton stocké n'est plus valide")
    ∷ (Keys.cmd_root_short, "Scuffinger — un service léger de surveillance GitHub")
    ∷ (
      Keys.cmd_root_long,
      "Scuffinger est un service léger pour surveiller les dépôts, flux de travail et métriques GitHub. Construit avec Cobra, Viper et Gin.",
    )
    ∷ (Keys.cmd_version_short, "Afficher le numéro de version")
    ∷ (
      Keys.cmd_version_long,
      "Affiche la version actuelle de l'application scuffinger, y compris les informations de build si disponibles.",
    )
    ∷ (Keys.cmd_serve_short, "Démarrer le serveur HTTP")
    ∷ (
      Keys.cmd_serve_long,
      "Démarre le serveur HTTP Gin avec les vérifications de santé, les métriques Prometheus et les points de terminaison de l'API GitHub. Le serveur se connecte à tous les services de support configurés au démarrage.",
    )
    ∷ (Keys.cmd_github_short, "Authentification et état GitHub")
    ∷ (
      Keys.cmd_github_long,
      "Gérer l'authentification OAuth GitHub. Utilisez les sous-commandes pour vous connecter via le flux d'appareil, vérifier l'état d'authentification ou supprimer les identifiants stockés.",
    )
    ∷ (Keys.cmd_github_auth_short, "S'authentifier avec GitHub via OAuth")
    ∷ (
      Keys.cmd_github_auth_long,
      "Démarre le flux d'appareil OAuth GitHub. Vous recevrez un code unique à entrer sur github.com/login/device. Une fois autorisé, le jeton est stocké de manière sécurisée dans le coffre-fort système.",
    )
    ∷ (Keys.cmd_github_status_short, "Afficher l'état d'authentification actuel")
    ∷ (
      Keys.cmd_github_status_long,
      "Affiche l'état actuel de l'authentification GitHub, y compris si les identifiants sont stockés dans le fichier de configuration, les variables d'environnement ou le coffre-fort système.",
    )
    ∷ (Keys.cmd_github_logout_short, "Supprimer les identifiants GitHub stockés")
    ∷ (
      Keys.cmd_github_logout_long,
      "Supprime tous les jetons OAuth GitHub stockés dans le coffre-fort système. N'affecte pas les jetons configurés via le fichier de configuration ou les variables d'environnement.",
    )
    ∷ (Keys.cmd_github_monitor_short, "Démarrer le collecteur de dépôts GitHub")
    ∷ (
      Keys.cmd_github_monitor_long,
      "Démarre le collecteur GitHub en arrière-plan qui récupère périodiquement les métadonnées des dépôts, les exécutions de workflows et les chronométrages des étapes de jobs. Expose les points de terminaison de santé et de métriques Prometheus, mais pas de routes proxy API. Conçu pour s'exécuter comme un processus séparé à côté du serveur API.",
    )
    ∷ (Keys.cmd_flag_config, "Chemin vers le fichier de configuration")
    ∷ []
