-- ===== src/I18n/Catalogues/Maltese.antt =====
-- internal/i18n/mt.go: the Maltese catalogue.
use scuffinger.Prelude.{[], ◌∷◌}
use scuffinger.I18n.{Messages}
use scuffinger.I18n.Keys

unfoldable pub maltese : Messages
maltese =
    (Keys.msg_config_loaded, "Il-konfigurazzjoni ttellgħet")
    ∷ (Keys.err_config_load, "Ma rnexxiex jittagħbel il-konfigurazzjoni")
    ∷ (Keys.msg_bootstrap_connecting, "Qed jikkonnettja mas-servizzi ta' appoġġ")
    ∷ (Keys.msg_bootstrap_self_tests, "Qed jiġu eżegwiti t-testijiet tal-bidu")
    ∷ (Keys.msg_bootstrap_tests_passed, "It-testijiet tal-bidu kollha għaddew")
    ∷ (Keys.msg_bootstrap_health_start, "Il-kontrolli perijodiċi tas-saħħa bdew")
    ∷ (Keys.err_bootstrap_connect, "Ma setax jikkonnettja mas-servizzi meħtieġa")
    ∷ (Keys.err_bootstrap_self_tests, "It-testijiet tal-bidu fallew")
    ∷ (Keys.msg_manager_connecting, "Qed jikkonnettja mas-servizz")
    ∷ (Keys.msg_manager_connected, "Ikkonnettjat mas-servizz")
    ∷ (Keys.msg_manager_self_test, "Qed jiġi eżegwit it-test awtomatiku")
    ∷ (Keys.msg_manager_self_test_passed, "It-test awtomatiku għadda")
    ∷ (Keys.msg_manager_closing, "Qed jingħalqu s-servizzi")
    ∷ (Keys.warn_manager_health_failed, "Il-kontroll tas-saħħa falla")
    ∷ (Keys.err_manager_connect, "Ma rnexxiex jikkonnettja mas-servizz")
    ∷ (Keys.err_manager_self_test, "It-test awtomatiku falla għas-servizz")
    ∷ (Keys.err_manager_close, "Żball meta ngħalaq is-servizz")
    ∷ (Keys.err_manager_shutdown, "Seħħew żbalji waqt it-tifi")
    ∷ (Keys.msg_cache_self_test_init, "Qed jiġi stabbilit iċ-ċavetta init bil-ħin attwali")
    ∷ (Keys.msg_cache_self_test_passed, "It-test awtomatiku tal-cache għadda")
    ∷ (Keys.err_cache_ping, "Il-cache mhux aċċessibbli")
    ∷ (Keys.err_cache_set_init, "Ma rnexxiex jinkiteb iċ-ċavetta init fil-cache")
    ∷ (Keys.err_cache_get_init, "Ma rnexxiex jinqara ċ-ċavetta init mill-cache")
    ∷ (Keys.err_cache_init_mismatch, "Il-valur init tal-cache ma jaqbilx")
    ∷ (Keys.msg_db_creating_test_db, "Qed tinħoloq id-database tat-test temporanja")
    ∷ (Keys.msg_db_running_crud, "Qed tiġi eżegwita l-verifika CRUD")
    ∷ (Keys.msg_db_self_test_passed, "It-test awtomatiku tad-database għadda")
    ∷ (
      Keys.warn_db_drop_test_failed,
      "Ma setax jitneħħa d-database tat-test (se jerġa jipprova fil-bidu li jmiss)",
    )
    ∷ (Keys.err_db_connect, "Id-database mhix aċċessibbli")
    ∷ (Keys.err_db_ping, "Id-database ma weġbitx għall-ping")
    ∷ (Keys.err_db_create_testdb, "Ma rnexxiex tinħoloq id-database tat-test")
    ∷ (Keys.err_db_connect_testdb, "Ma rnexxiex jikkonnettja mad-database tat-test")
    ∷ (Keys.err_db_crud, "Il-verifika CRUD tad-database falliet")
    ∷ (Keys.err_db_create_table, "Ma rnexxiex tinħoloq it-tabella tat-test")
    ∷ (Keys.err_db_insert, "Ma rnexxiex jiddaħħal ir-rekord tat-test")
    ∷ (Keys.err_db_read, "Ma rnexxiex jinqara r-rekord tat-test")
    ∷ (Keys.err_db_read_mismatch, "Il-valur tar-rekord tat-test ma jaqbilx mal-mistenni")
    ∷ (Keys.err_db_update, "Ma rnexxiex jiġi aġġornat ir-rekord tat-test")
    ∷ (Keys.err_db_read_after_update, "Ma rnexxiex jinqara r-rekord tat-test wara l-aġġornament")
    ∷ (Keys.err_db_update_mismatch, "Il-valur tar-rekord aġġornat ma jaqbilx mal-mistenni")
    ∷ (Keys.msg_server_starting, "Is-server HTTP qed jibda")
    ∷ (Keys.msg_server_shutdown, "Qed jintefa s-server HTTP")
    ∷ (Keys.msg_server_stopped, "Is-server HTTP waqaf b'mod korrett")
    ∷ (Keys.msg_server_routes, "Ir-rotot ġew irreġistrati")
    ∷ (Keys.err_server_listen, "Is-server HTTPiltaqa' ma' żball")
    ∷ (Keys.err_server_shutdown, "Is-server HTTP ġie sfurzat jintefa")
    ∷ (Keys.msg_health_ready, "Is-servizzi kollha f'saħħithom")
    ∷ (Keys.msg_health_not_ready, "Servizz wieħed jew aktar mhumiex lesti")
    ∷ (Keys.msg_gh_connecting, "Qed jikkonnettja mal-API ta' GitHub")
    ∷ (Keys.msg_gh_connected, "Ikkonnettjat mal-API ta' GitHub")
    ∷ (Keys.msg_gh_auth_token, "Qed jawtentika b'token ta' aċċess personali")
    ∷ (Keys.msg_gh_auth_app, "Qed jawtentika bħala applikazzjoni GitHub")
    ∷ (Keys.msg_gh_self_test_passed, "It-test awtomatiku ta' GitHub għadda")
    ∷ (Keys.msg_gh_rate_remaining, "Stat tal-limitu tar-rata tal-API ta' GitHub")
    ∷ (Keys.warn_gh_rate_low, "Il-limitu tar-rata tal-API ta' GitHub qed jonqos")
    ∷ (
      Keys.err_gh_not_configured,
      "GitHub mhux ikkonfigurat — issettja token jew kredenzjali tal-applikazzjoni",
    )
    ∷ (Keys.err_gh_auth, "L-awtentikazzjoni ta' GitHub falliet")
    ∷ (
      Keys.err_gh_read_key,
      "Ma rnexxiex jinqara l-fajl taċ-ċavetta privata tal-applikazzjoni GitHub",
    )
    ∷ (
      Keys.err_gh_parse_key,
      "Ma rnexxiex tiġi analizzata ċ-ċavetta privata tal-applikazzjoni GitHub",
    )
    ∷ (
      Keys.err_gh_install_token,
      "Ma rnexxiex jinkiseb it-token tal-installazzjoni tal-applikazzjoni GitHub",
    )
    ∷ (Keys.err_gh_self_test, "It-test awtomatiku ta' GitHub falla")
    ∷ (Keys.err_gh_rate_limit, "Il-limitu tar-rata tal-API ta' GitHub baxx wisq")
    ∷ (Keys.err_gh_fetch_user, "Ma rnexxiex jinkiseb l-utent ta' GitHub")
    ∷ (Keys.err_gh_fetch_org, "Ma rnexxiex tinkiseb l-organizzazzjoni ta' GitHub")
    ∷ (Keys.err_gh_fetch_repo, "Ma rnexxiex jinkiseb ir-repożitorju ta' GitHub")
    ∷ (Keys.err_gh_fetch_branches, "Ma rnexxiex jinkisbu l-fergħat tar-repożitorju")
    ∷ (Keys.err_gh_fetch_workflows, "Ma rnexxiex jinkisbu l-workflows tar-repożitorju")
    ∷ (Keys.err_gh_fetch_runs, "Ma rnexxiex jinkisbu l-eżekuzzjonijiet tal-workflow")
    ∷ (Keys.err_gh_fetch_rate_limit, "Ma rnexxiex jinkiseb il-limitu tar-rata ta' GitHub")
    ∷ (Keys.err_gh_invalid_workflow, "ID tal-workflow mhux validu")
    ∷ (Keys.msg_gh_collector_starting, "Il-kollezzjonist tar-repożitorji ta' GitHub qed jibda")
    ∷ (Keys.msg_gh_collector_tick, "Qed tiġi eżegwita ċ-ċiklu tal-ġbir ta' GitHub")
    ∷ (Keys.msg_gh_collector_repo, "Qed jinġabar id-dejta tar-repożitorju")
    ∷ (Keys.msg_gh_collector_stopped, "Il-kollezzjonist tar-repożitorji ta' GitHub waqaf")
    ∷ (Keys.msg_gh_collector_passed, "It-test awtomatiku tal-kollezzjonist ta' GitHub għadda")
    ∷ (Keys.msg_gh_collector_annotations, "Annotazzjonijiet miġbura għall-impjieg li falla")
    ∷ (Keys.msg_gh_collector_lock_acquired, "Lock tal-ġbir miksub għar-repożitorju")
    ∷ (Keys.msg_gh_collector_lock_skipped, "Repożitorju maqbuż (istanza oħra qed iżżomm il-lock)")
    ∷ (
      Keys.warn_gh_collector_lock_error,
      "Ma rnexxiex jinkiseb il-lock distribwit (qed jitkompla xorta waħda)",
    )
    ∷ (Keys.err_gh_collector_fetch_repo, "Ma rnexxiex jinkiseb il-metadata tar-repożitorju")
    ∷ (Keys.err_gh_collector_fetch_runs, "Ma rnexxiex jinkisbu l-eżekuzzjonijiet tal-workflow")
    ∷ (Keys.err_gh_collector_fetch_jobs, "Ma rnexxiex jinkisbu l-impjiegi tal-workflow")
    ∷ (
      Keys.err_gh_collector_fetch_annotations,
      "Ma rnexxiex jinkisbu l-annotazzjonijiet tal-check-run",
    )
    ∷ (Keys.err_gh_collector_no_repos, "L-ebda repożitorji kkonfigurati għall-monitoraġġ")
    ∷ (Keys.err_gh_collector_parse_repo, "Format tar-repożitorju mhux validu (mistenni: sid/repo)")
    ∷ (Keys.msg_auth_device_prompt, "Daħħal il-kodiċi fl-URL biex tawtentika")
    ∷ (Keys.msg_auth_polling, "Qed jistenna l-awtorizzazzjoni ta' GitHub…")
    ∷ (Keys.msg_auth_success, "Awtentikazzjoni ma' GitHub irnexxiet")
    ∷ (Keys.msg_auth_logged_out, "Il-kredenzjali ta' GitHub tneħħew")
    ∷ (Keys.msg_auth_status_logged_in, "Idħol f'GitHub")
    ∷ (
      Keys.msg_auth_status_no_token, "Mhux idħol — eżegwi 'scuffinger github auth' biex tawtentika",
    )
    ∷ (Keys.msg_auth_token_from_vault, "Qed jintuża t-token ta' GitHub mill-vault tas-sistema")
    ∷ (
      Keys.err_auth_no_client_id,
      "github.client_id irid ikun issettjat fil-konfigurazzjoni għal-login OAuth",
    )
    ∷ (Keys.err_auth_device_code, "Ma rnexxiex jibda l-fluss tal-apparat ta' GitHub")
    ∷ (Keys.err_auth_poll, "Ma rnexxiex titlesta l-awtorizzazzjoni ta' GitHub")
    ∷ (Keys.err_auth_save_token, "Ma rnexxiex jiġi ssejvjat it-token fil-vault tas-sistema")
    ∷ (Keys.err_auth_verify_token, "It-token issejvjat m'għadux validu")
    ∷ (Keys.cmd_root_short, "Scuffinger — servizz ħafif ta' monitoraġġ ta' GitHub")
    ∷ (
      Keys.cmd_root_long,
      "Scuffinger huwa servizz ħafif għall-monitoraġġ ta' repożitorji, workflows u metriċi ta' GitHub. Mibni b'Cobra, Viper u Gin.",
    )
    ∷ (Keys.cmd_version_short, "Uri n-numru tal-verżjoni")
    ∷ (
      Keys.cmd_version_long,
      "Juri l-verżjoni attwali tal-applikazzjoni scuffinger, inkluża l-informazzjoni tal-bini meta disponibbli.",
    )
    ∷ (Keys.cmd_serve_short, "Ibda s-server HTTP")
    ∷ (
      Keys.cmd_serve_long,
      "Jibda s-server HTTP Gin bil-kontrolli tas-saħħa, metriċi Prometheus u endpoints tal-API ta' GitHub. Is-server jikkonnettja mas-servizzi kollha kkonfigurati mal-bidu.",
    )
    ∷ (Keys.cmd_github_short, "Awtentikazzjoni u stat ta' GitHub")
    ∷ (
      Keys.cmd_github_long,
      "Immaniġġja l-awtentikazzjoni OAuth ta' GitHub. Uża sottokumandi biex tidħol permezz tal-fluss tal-apparat, tiċċekkja l-istat tal-awtentikazzjoni jew tneħħi kredenzjali ssejvjati.",
    )
    ∷ (Keys.cmd_github_auth_short, "Awtentika ma' GitHub permezz ta' OAuth")
    ∷ (
      Keys.cmd_github_auth_long,
      "Jibda l-fluss tal-apparat OAuth ta' GitHub. Se tirċievi kodiċi ta' darba biex tiddaħħal f'github.com/login/device. Wara l-awtorizzazzjoni, it-token jiġi ssejvjat b'mod sigur fil-vault tas-sistema.",
    )
    ∷ (Keys.cmd_github_status_short, "Uri l-istat attwali tal-awtentikazzjoni")
    ∷ (
      Keys.cmd_github_status_long,
      "Juri l-istat attwali tal-awtentikazzjoni ta' GitHub, inkluż jekk il-kredenzjali huma ssejvjati fil-fajl tal-konfigurazzjoni, varjabbli ambjentali jew vault tas-sistema.",
    )
    ∷ (Keys.cmd_github_logout_short, "Neħħi l-kredenzjali ssejvjati ta' GitHub")
    ∷ (
      Keys.cmd_github_logout_long,
      "Ineħħi kwalunkwe tokens OAuth ta' GitHub ssejvjati fil-vault tas-sistema. Ma jaffettwax tokens ikkonfigurati permezz tal-fajl tal-konfigurazzjoni jew varjabbli ambjentali.",
    )
    ∷ (Keys.cmd_github_monitor_short, "Ibda l-kollettatur tar-repożitorji ta' GitHub")
    ∷ (
      Keys.cmd_github_monitor_long,
      "Jibda l-kollettatur ta' GitHub fil-background li jiġbor perjodikament metadata tar-repożitorji, eżekuzzjonijiet ta' workflows u ħinijiet tal-passi tal-jobs. Jesponi endpoints tas-saħħa u metriċi Prometheus iżda l-ebda rotot proxy tal-API. Iddisinjat biex jaħdem bħala proċess separat maġenb is-server tal-API.",
    )
    ∷ (Keys.cmd_flag_config, "Mogħdija għall-fajl tal-konfigurazzjoni")
    ∷ []
