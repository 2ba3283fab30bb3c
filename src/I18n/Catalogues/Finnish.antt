-- ===== src/I18n/Catalogues/Finnish.antt =====
-- internal/i18n/fi.go: the Finnish catalogue.
use scuffinger.Prelude.{[], ◌∷◌}
use scuffinger.I18n.{Messages}
use scuffinger.I18n.Keys

unfoldable pub finnish : Messages
finnish =
    (Keys.msg_config_loaded, "Asetukset ladattu")
    ∷ (Keys.err_config_load, "Asetusten lataaminen epäonnistui")
    ∷ (Keys.msg_bootstrap_connecting, "Yhdistetään taustapalveluihin")
    ∷ (Keys.msg_bootstrap_self_tests, "Suoritetaan käynnistyksen itsetestejä")
    ∷ (Keys.msg_bootstrap_tests_passed, "Kaikki itsetestit läpäisty")
    ∷ (Keys.msg_bootstrap_health_start, "Säännölliset terveystarkistukset käynnistetty")
    ∷ (Keys.err_bootstrap_connect, "Yhteyden muodostaminen vaadittuihin palveluihin epäonnistui")
    ∷ (Keys.err_bootstrap_self_tests, "Käynnistyksen itsetestit epäonnistuivat")
    ∷ (Keys.msg_manager_connecting, "Yhdistetään palveluun")
    ∷ (Keys.msg_manager_connected, "Yhdistetty palveluun")
    ∷ (Keys.msg_manager_self_test, "Suoritetaan itsetestiä")
    ∷ (Keys.msg_manager_self_test_passed, "Itsetesti läpäisty")
    ∷ (Keys.msg_manager_closing, "Suljetaan palveluja")
    ∷ (Keys.warn_manager_health_failed, "Terveystarkistus epäonnistui")
    ∷ (Keys.err_manager_connect, "Yhteys palveluun epäonnistui")
    ∷ (Keys.err_manager_self_test, "Palvelun itsetesti epäonnistui")
    ∷ (Keys.err_manager_close, "Virhe palvelun sulkemisessa")
    ∷ (Keys.err_manager_shutdown, "Virheitä tapahtui sammutuksen aikana")
    ∷ (Keys.msg_cache_self_test_init, "Asetetaan init-avain nykyisellä aikaleimalla")
    ∷ (Keys.msg_cache_self_test_passed, "Välimuistin itsetesti läpäisty")
    ∷ (Keys.err_cache_ping, "Välimuisti ei ole tavoitettavissa")
    ∷ (Keys.err_cache_set_init, "Init-avaimen kirjoittaminen välimuistiin epäonnistui")
    ∷ (Keys.err_cache_get_init, "Init-avaimen lukeminen välimuistista epäonnistui")
    ∷ (Keys.err_cache_init_mismatch, "Välimuistin init-arvo ei täsmää")
    ∷ (Keys.msg_db_creating_test_db, "Luodaan väliaikaista testitietokantaa")
    ∷ (Keys.msg_db_running_crud, "Suoritetaan CRUD-tarkistusta")
    ∷ (Keys.msg_db_self_test_passed, "Tietokannan itsetesti läpäisty")
    ∷ (
      Keys.warn_db_drop_test_failed,
      "Testitietokantaa ei voitu poistaa (yritetään uudelleen seuraavassa käynnistyksessä)",
    )
    ∷ (Keys.err_db_connect, "Tietokanta ei ole tavoitettavissa")
    ∷ (Keys.err_db_ping, "Tietokanta ei vastannut ping-kyselyyn")
    ∷ (Keys.err_db_create_testdb, "Testitietokannan luominen epäonnistui")
    ∷ (Keys.err_db_connect_testdb, "Yhteys testitietokantaan epäonnistui")
    ∷ (Keys.err_db_crud, "Tietokannan CRUD-tarkistus epäonnistui")
    ∷ (Keys.err_db_create_table, "Testitaulun luominen epäonnistui")
    ∷ (Keys.err_db_insert, "Testitietueen lisääminen epäonnistui")
    ∷ (Keys.err_db_read, "Testitietueen lukeminen epäonnistui")
    ∷ (Keys.err_db_read_mismatch, "Testitietueen arvo ei vastaa odotettua")
    ∷ (Keys.err_db_update, "Testitietueen päivittäminen epäonnistui")
    ∷ (Keys.err_db_read_after_update, "Testitietueen lukeminen päivityksen jälkeen epäonnistui")
    ∷ (Keys.err_db_update_mismatch, "Päivitetyn testitietueen arvo ei vastaa odotettua")
    ∷ (Keys.msg_server_starting, "HTTP-palvelin käynnistyy")
    ∷ (Keys.msg_server_shutdown, "HTTP-palvelinta sammutetaan")
    ∷ (Keys.msg_server_stopped, "HTTP-palvelin pysähtyi hallitusti")
    ∷ (Keys.msg_server_routes, "Reitit rekisteröity")
    ∷ (Keys.err_server_listen, "HTTP-palvelimella tapahtui virhe")
    ∷ (Keys.err_server_shutdown, "HTTP-palvelin pakotettiin sammumaan")
    ∷ (Keys.msg_health_ready, "Kaikki palvelut ovat kunnossa")
    ∷ (Keys.msg_health_not_ready, "Yksi tai useampi palvelu ei ole valmis")
    ∷ (Keys.msg_gh_connecting, "Yhdistetään GitHub-rajapintaan")
    ∷ (Keys.msg_gh_connected, "Yhdistetty GitHub-rajapintaan")
    ∷ (Keys.msg_gh_auth_token, "Tunnistaudutaan henkilökohtaisella käyttöoikeustunnuksella")
    ∷ (Keys.msg_gh_auth_app, "Tunnistaudutaan GitHub-sovelluksena")
    ∷ (Keys.msg_gh_self_test_passed, "GitHubin itsetesti läpäisty")
    ∷ (Keys.msg_gh_rate_remaining, "GitHub-rajapinnan nopeusrajoituksen tila")
    ∷ (Keys.warn_gh_rate_low, "GitHub-rajapinnan nopeusrajoitus on vähissä")
    ∷ (
      Keys.err_gh_not_configured,
      "GitHubia ei ole määritetty — aseta tunnus tai sovelluksen tunnistetiedot",
    )
    ∷ (Keys.err_gh_auth, "GitHub-tunnistautuminen epäonnistui")
    ∷ (Keys.err_gh_read_key, "GitHub-sovelluksen yksityisen avaimen lukeminen epäonnistui")
    ∷ (Keys.err_gh_parse_key, "GitHub-sovelluksen yksityisen avaimen jäsentäminen epäonnistui")
    ∷ (Keys.err_gh_install_token, "GitHub-sovelluksen asennustunnuksen hakeminen epäonnistui")
    ∷ (Keys.err_gh_self_test, "GitHubin itsetesti epäonnistui")
    ∷ (Keys.err_gh_rate_limit, "GitHub-rajapinnan nopeusrajoitus liian alhainen")
    ∷ (Keys.err_gh_fetch_user, "GitHub-käyttäjän hakeminen epäonnistui")
    ∷ (Keys.err_gh_fetch_org, "GitHub-organisaation hakeminen epäonnistui")
    ∷ (Keys.err_gh_fetch_repo, "GitHub-tietovaraston hakeminen epäonnistui")
    ∷ (Keys.err_gh_fetch_branches, "Tietovaraston haarojen hakeminen epäonnistui")
    ∷ (Keys.err_gh_fetch_workflows, "Tietovaraston työnkulkujen hakeminen epäonnistui")
    ∷ (Keys.err_gh_fetch_runs, "Työnkulun ajojen hakeminen epäonnistui")
    ∷ (Keys.err_gh_fetch_rate_limit, "GitHubin nopeusrajoituksen hakeminen epäonnistui")
    ∷ (Keys.err_gh_invalid_workflow, "Virheellinen työnkulun tunniste")
    ∷ (Keys.msg_gh_collector_starting, "GitHub-tietovarastokeräin käynnistyy")
    ∷ (Keys.msg_gh_collector_tick, "Suoritetaan GitHub-keräyskiertoa")
    ∷ (Keys.msg_gh_collector_repo, "Kerätään tietovaraston tietoja")
    ∷ (Keys.msg_gh_collector_stopped, "GitHub-tietovarastokeräin pysäytetty")
    ∷ (Keys.msg_gh_collector_passed, "GitHub-keräimen itsetesti läpäisty")
    ∷ (Keys.msg_gh_collector_annotations, "Epäonnistuneen työn annotaatiot kerätty")
    ∷ (Keys.msg_gh_collector_lock_acquired, "Keräyslukko hankittu tietovarastolle")
    ∷ (Keys.msg_gh_collector_lock_skipped, "Tietovarasto ohitettu (toinen instanssi pitää lukkoa)")
    ∷ (
      Keys.warn_gh_collector_lock_error,
      "Hajautetun lukon hankkiminen epäonnistui (jatketaan silti)",
    )
    ∷ (Keys.err_gh_collector_fetch_repo, "Tietovaraston metatietojen hakeminen epäonnistui")
    ∷ (Keys.err_gh_collector_fetch_runs, "Työnkulun ajojen hakeminen epäonnistui")
    ∷ (Keys.err_gh_collector_fetch_jobs, "Työnkulun töiden hakeminen epäonnistui")
    ∷ (
      Keys.err_gh_collector_fetch_annotations, "Tarkistusajon annotaatioiden hakeminen epäonnistui",
    )
    ∷ (Keys.err_gh_collector_no_repos, "Seurattavia tietovarastoja ei ole määritetty")
    ∷ (Keys.err_gh_collector_parse_repo, "Virheellinen tietovarastomuoto (odotettu: omistaja/repo)")
    ∷ (Keys.msg_auth_device_prompt, "Syötä koodi URL-osoitteessa tunnistautuaksesi")
    ∷ (Keys.msg_auth_polling, "Odotetaan GitHub-valtuutusta…")
    ∷ (Keys.msg_auth_success, "GitHub-tunnistautuminen onnistui")
    ∷ (Keys.msg_auth_logged_out, "GitHub-tunnistetiedot poistettu")
    ∷ (Keys.msg_auth_status_logged_in, "Kirjautunut GitHubiin")
    ∷ (
      Keys.msg_auth_status_no_token,
      "Ei kirjautunut — suorita 'scuffinger github auth' tunnistautuaksesi",
    )
    ∷ (Keys.msg_auth_token_from_vault, "Käytetään GitHub-tunnusta järjestelmän holvista")
    ∷ (Keys.err_auth_no_client_id, "github.client_id on asetettava OAuth-kirjautumista varten")
    ∷ (Keys.err_auth_device_code, "GitHub-laitevirran käynnistäminen epäonnistui")
    ∷ (Keys.err_auth_poll, "GitHub-valtuutuksen viimeistely epäonnistui")
    ∷ (Keys.err_auth_save_token, "Tunnuksen tallentaminen järjestelmän holviin epäonnistui")
    ∷ (Keys.err_auth_verify_token, "Tallennettu tunnus ei ole enää voimassa")
    ∷ (Keys.cmd_root_short, "Scuffinger — kevyt GitHub-seurantapalvelu")
    ∷ (
      Keys.cmd_root_long,
      "Scuffinger on kevyt palvelu GitHub-tietovarastojen, työnkulkujen ja mittareiden seurantaan. Rakennettu Cobralla, Viperillä ja Ginillä.",
    )
    ∷ (Keys.cmd_version_short, "Näytä versionumero")
    ∷ (
      Keys.cmd_version_long,
      "Näyttää scuffinger-sovelluksen nykyisen version, mukaan lukien käännöstiedot jos saatavilla.",
    )
    ∷ (Keys.cmd_serve_short, "Käynnistä HTTP-palvelin")
    ∷ (
      Keys.cmd_serve_long,
      "Käynnistää Gin HTTP-palvelimen terveystarkistuksilla, Prometheus-mittareilla ja GitHub API -päätepisteillä. Palvelin yhdistää kaikkiin määritettyihin taustapalveluihin käynnistyksessä.",
    )
    ∷ (Keys.cmd_github_short, "GitHub-tunnistautuminen ja tila")
    ∷ (
      Keys.cmd_github_long,
      "Hallitse GitHub OAuth -tunnistautumista. Käytä alikomentoja kirjautuaksesi laitevirran kautta, tarkistaaksesi tunnistautumistilan tai poistaaksesi tallennettuja tunnistetietoja.",
    )
    ∷ (Keys.cmd_github_auth_short, "Tunnistaudu GitHubiin OAuthilla")
    ∷ (
      Keys.cmd_github_auth_long,
      "Käynnistää GitHub OAuth -laitevirran. Saat kertakäyttökoodin syötettäväksi osoitteessa github.com/login/device. Valtuutuksen jälkeen tunnus tallennetaan turvallisesti järjestelmän holviin.",
    )
    ∷ (Keys.cmd_github_status_short, "Näytä nykyinen tunnistautumistila")
    ∷ (
      Keys.cmd_github_status_long,
      "Näyttää nykyisen GitHub-tunnistautumistilan, mukaan lukien onko tunnistetiedot tallennettu asetustiedostoon, ympäristömuuttujiin vai järjestelmän holviin.",
    )
    ∷ (Keys.cmd_github_logout_short, "Poista tallennetut GitHub-tunnistetiedot")
    ∷ (
      Keys.cmd_github_logout_long,
      "Poistaa kaikki järjestelmän holviin tallennetut GitHub OAuth -tunnukset. Ei vaikuta asetustiedoston tai ympäristömuuttujien kautta määritettyihin tunnuksiin.",
    )
    ∷ (Keys.cmd_github_monitor_short, "Käynnistä GitHub-tietovarastojen kerääjä")
    ∷ (
      Keys.cmd_github_monitor_long,
      "Käynnistää tausta-GitHub-kerääjän, joka hakee säännöllisesti tietovarastojen metatiedot, työnkulkujen suoritukset ja työvaiheaikataulut. Tarjoaa terveys- ja Prometheus-mittaripäätepisteet, mutta ei API-välityspalvelinreittejä. Suunniteltu ajettavaksi erillisenä prosessina API-palvelimen rinnalla.",
    )
    ∷ (Keys.cmd_flag_config, "Polku asetustiedostoon")
    ∷ []
